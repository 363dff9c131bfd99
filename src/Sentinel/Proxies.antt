-- ===== src/Sentinel/Proxies.antt =====
-- `activeProxiesInfos` of internal/runtime/sentinel/state.go: which of the proxies that publish
-- infos count as active. `infos` are the proxies' infos, by the proxy's uid.
pub mod Active
use hysteron.Base.{
  Text, text_eq, Map, lookup, insert, delete, has_key, values, Bool, true, false, not, Option, some,
  none, List, [], ◌∷◌, ◌&&◌, Time, Duration, add_duration, ltb_ℤ, sub_time, if◌then◌else◌, filter,
}
use hysteron.Cluster.Entities.{ProxyInfo}
use hysteron.Sentinel.State.{Sentinel, ProxyInfoHistory}

-- "remove missing proxyInfos from the history"
unfoldable pub forget_missing : Map ProxyInfo → Map ProxyInfoHistory → Map ProxyInfoHistory
forget_missing infos histories = filter (λ e. has_key e.0 infos) histories

unfoldable pub noticed : Time → ProxyInfo → ProxyInfoHistory
noticed now pi = record { proxy_info = pi; timer = now }

-- The info is the one of the history, and has been for longer than twice the proxy's timeout.
unfoldable pub is_outdated : Time → ProxyInfoHistory → ProxyInfo → Bool
is_outdated now history pi =
    text_eq history.proxy_info.info_uid pi.info_uid
    && ltb_ℤ (add_duration pi.proxy_timeout pi.proxy_timeout) (sub_time now history.timer)

-- One round of the loop over the infos.
unfoldable pub refresh_proxy :
    Time → ProxyInfo → Map ProxyInfo → Map ProxyInfoHistory → Map ProxyInfo × Map ProxyInfoHistory
refresh_proxy now pi active histories = elim (lookup pi.uid histories) [
  | none ↦ (active, insert pi.uid (noticed now pi) histories)
  | some history ↦ (
    if is_outdated now history pi then delete pi.uid active else active,
    if text_eq history.proxy_info.info_uid pi.info_uid
        then histories
        else insert pi.uid (noticed now pi) histories,
  )
]

unfoldable pub refresh_proxies :
    Time
    → List ProxyInfo
    → Map ProxyInfo
    → Map ProxyInfoHistory
    → Map ProxyInfo × Map ProxyInfoHistory
refresh_proxies now [] active histories = (active, histories)
refresh_proxies now (pi ∷ pis) active histories =
    let (active', histories') = refresh_proxy now pi active histories in
    refresh_proxies now pis active' histories'

-- `activeProxiesInfos`
unfoldable pub active_proxies_infos : Time → Map ProxyInfo → Sentinel → Map ProxyInfo × Sentinel
active_proxies_infos now infos s =
    let (active, histories) =
      refresh_proxies now (values infos) infos (forget_missing infos s.proxy_info_histories) in
    (active, record s { proxy_info_histories = histories })
