-- ===== src/Examples/Publishers.antt =====
-- The theorem on the proxies that publish infos, applied to a silent one and one that publishes.
use hysteron.Base.{
  Text, text, text_eq, Map, lookup, has_key, some, none, [], ◌∷◌, pos, ◌≡◌, refl, sub_time,
  add_duration, insert, delete, filter, if◌then◌else◌,
}
use hysteron.Cluster.Entities.{ProxyInfo}
use hysteron.Sentinel.State.{Sentinel}
use hysteron.Sentinel.Proxies.{
  active_proxies_infos, forget_missing, refresh_proxies, refresh_proxy, is_outdated, noticed,
}
use hysteron.Sentinel.Proxies.Active.{IsFiled, is_silent, carried_on, active_proxies_infos-Heard}
use hysteron.Examples.World.{fresh_sentinel}

abbrev publishing : Text → Text → ProxyInfo
publishing uid info_uid = record {
  info_uid = info_uid;
  uid = uid;
  hostname = [];
  node_name = [];
  listeners = [];
  generation = 1;
  proxy_timeout = pos 15;
}

abbrev published : Map ProxyInfo
published =
    (text "p1", publishing (text "p1") (text "i1"))
    ∷ (text "p2", publishing (text "p2") (text "i2"))
    ∷ []

-- Both infos were first seen at 100, and the second proxy has another one now.
abbrev remembering : Sentinel
remembering = record fresh_sentinel {
  proxy_info_histories =
      (text "p1", record { proxy_info = publishing (text "p1") (text "i1"); timer = 100 })
      ∷ (text "p2", record { proxy_info = publishing (text "p2") (text "i0"); timer = 100 })
      ∷ [];
}

-- At 131 the first proxy is no longer counted on.
only_second :
    (active_proxies_infos 131 published remembering).0
    ≡ (text "p2", publishing (text "p2") (text "i2")) ∷ []
unfolding active_proxies_infos forget_missing refresh_proxies refresh_proxy is_outdated noticed
    lookup has_key text_eq sub_time add_duration insert delete filter
only_second = refl

published-IsFiled : IsFiled published
unfolding IsFiled has_key lookup text_eq
published-IsFiled = (refl, refl, (refl, refl, tt))

first_known : lookup (text "p1") published ≡ some (publishing (text "p1") (text "i1"))
unfolding lookup text_eq
first_known = refl

active_proxies_infos-Heard_example :
    (lookup (text "p1") (active_proxies_infos 131 published remembering).0 ≡ (
      if is_silent 131
        (lookup (text "p1") remembering.proxy_info_histories)
        (publishing (text "p1") (text "i1"))
      then none
      else some (publishing (text "p1") (text "i1"))))
    × (lookup (text "p1") (active_proxies_infos 131 published remembering).1.proxy_info_histories
        ≡ some (
            carried_on 131
              (lookup (text "p1") remembering.proxy_info_histories)
              (publishing (text "p1") (text "i1"))))
active_proxies_infos-Heard_example =
    active_proxies_infos-Heard 131 published remembering (text "p1")
      (publishing (text "p1") (text "i1")) published-IsFiled first_known
