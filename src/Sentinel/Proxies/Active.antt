-- ===== src/Sentinel/Proxies/Active.antt =====
-- When `activeProxiesInfos` of internal/runtime/sentinel/state.go stops counting on a proxy.
use mathlib.Core.Path.{subst}
use hysteron.Base.{
  Text, text_eq, text_eq_iff, Map, lookup, lookup-insert, lookup-delete, has_key, values, Bool,
  true, false, Option, some, none, [], ◌∷◌, ◌≡◌, refl, sym, ◌∙◌, inl, inr, arith, Bool-cases, Time,
  add_duration, ltb_ℤ, sub_time, if◌then◌else◌, filter,
}
use hysteron.Cluster.Entities.{ProxyInfo}
use hysteron.Sentinel.State.{Sentinel, ProxyInfoHistory}
use hysteron.Sentinel.Proxies.{
  forget_missing, noticed, is_outdated, refresh_proxy, refresh_proxies, active_proxies_infos,
}

-- Every info stands under the uid of its proxy, and only there.
unfoldable pub IsFiled : Map ProxyInfo → Type 0
IsFiled [] = Unit
IsFiled ((uid, pi) ∷ infos) = (pi.uid ≡ uid) × (has_key uid infos ≡ false) × IsFiled infos

-- The proxy published this info longer ago than twice its timeout, and nothing since.
unfoldable pub is_silent : Time → Option ProxyInfoHistory → ProxyInfo → Bool
is_silent now none pi = false
is_silent now (some history) pi =
    if text_eq history.proxy_info.info_uid pi.info_uid
    then ltb_ℤ (add_duration pi.proxy_timeout pi.proxy_timeout) (sub_time now history.timer)
    else false

-- The history of a proxy after its info: it goes on while the info is the same.
unfoldable pub carried_on : Time → Option ProxyInfoHistory → ProxyInfo → ProxyInfoHistory
carried_on now none pi = noticed now pi
carried_on now (some history) pi =
    if text_eq history.proxy_info.info_uid pi.info_uid then history else noticed now pi

lookup-filter :
    (p : Text → Bool) (uid : Text) (m : Map ProxyInfoHistory)
    → p uid ≡ true
    → lookup uid (filter (λ e. p e.0) m) ≡ lookup uid m
unfolding lookup filter
lookup-filter p uid [] h = refl
lookup-filter p uid ((k, v) ∷ m) h =
    let step = lookup-filter p uid m h in
    elim (Bool-cases (text_eq k uid)) [
      | inl same ↦ ground (arith, text_eq_iff k uid)
      | inr other ↦ elim (Bool-cases (p k)) [ inl kept ↦ ground arith | inr left ↦ ground arith ]
    ]

-- A round of the loop is about the proxy of its info only.
refresh_proxy-other :
    (now : Time) (pi : ProxyInfo) (active : Map ProxyInfo) (histories : Map ProxyInfoHistory)
    (uid : Text)
    → text_eq pi.uid uid ≡ false
    → (lookup uid (refresh_proxy now pi active histories).0 ≡ lookup uid active)
      × (lookup uid (refresh_proxy now pi active histories).1 ≡ lookup uid histories)
unfolding refresh_proxy
refresh_proxy-other now pi active histories uid h =
    ground
      (arith, lookup-insert pi.uid uid (noticed now pi) histories, lookup-delete pi.uid uid active)

refresh_proxy-own :
    (now : Time) (pi : ProxyInfo) (active : Map ProxyInfo) (histories : Map ProxyInfoHistory)
    (uid : Text)
    → pi.uid ≡ uid
    → (lookup uid (refresh_proxy now pi active histories).0
        ≡ (if is_silent now (lookup uid histories) pi then none else lookup uid active))
      × (lookup uid (refresh_proxy now pi active histories).1
          ≡ some (carried_on now (lookup uid histories) pi))
unfolding refresh_proxy is_outdated is_silent carried_on
refresh_proxy-own now pi active histories uid e = ground (
  arith,
  lookup-insert pi.uid uid (noticed now pi) histories,
  lookup-delete pi.uid uid active,
  text_eq_iff pi.uid uid,
)

module _ (now : Time) (uid : Text) where
  -- The loop leaves alone the proxies without an info.
  refresh_proxies-other :
      (infos active : Map ProxyInfo) (histories : Map ProxyInfoHistory)
      → IsFiled infos
      → has_key uid infos ≡ false
      → (lookup uid (refresh_proxies now (values infos) active histories).0 ≡ lookup uid active)
        × (lookup uid (refresh_proxies now (values infos) active histories).1
            ≡ lookup uid histories)
  unfolding refresh_proxies IsFiled has_key lookup
  refresh_proxies-other [] active histories f h = (refl, refl)
  refresh_proxies-other ((k, pi) ∷ infos) active histories (named, alone, f) h =
      let other : text_eq pi.uid uid ≡ false = rw named (ground arith) in
      let (one, two) = refresh_proxy-other now pi active histories uid other in
      let next = refresh_proxy now pi active histories in
      let (three, four) = refresh_proxies-other infos next.0 next.1 f (ground arith) in
      (three ∙ one, four ∙ two)

  -- What it makes of a proxy with one.
  refresh_proxies-own :
      (infos active : Map ProxyInfo) (histories : Map ProxyInfoHistory) (pi : ProxyInfo)
      → IsFiled infos
      → lookup uid infos ≡ some pi
      → (lookup uid (refresh_proxies now (values infos) active histories).0
          ≡ (if is_silent now (lookup uid histories) pi then none else lookup uid active))
        × (lookup uid (refresh_proxies now (values infos) active histories).1
            ≡ some (carried_on now (lookup uid histories) pi))
  unfolding refresh_proxies IsFiled lookup
  refresh_proxies-own [] active histories pi f h = cc
  refresh_proxies-own ((k, first) ∷ infos) active histories pi (named, alone, f) h =
      let next = refresh_proxy now first active histories in
      elim (Bool-cases (text_eq k uid)) [
        | inl here ↦
            let own : first.uid ≡ uid = named ∙ (text_eq_iff k uid).0 here in
            let it : first ≡ pi = ground arith in
            let (one, two) = refresh_proxy-own now first active histories uid own in
            let away : has_key uid infos ≡ false = rw (sym ((text_eq_iff k uid).0 here)) alone in
            let (three, four) = refresh_proxies-other infos next.0 next.1 f away in
            subst
              (λ p.
                (lookup uid (refresh_proxies now (first ∷ values infos) active histories).0
                  ≡ (if is_silent now (lookup uid histories) p then none else lookup uid active))
                × (lookup uid (refresh_proxies now (first ∷ values infos) active histories).1
                    ≡ some (carried_on now (lookup uid histories) p)))
              it (three ∙ one, four ∙ two)
        | inr elsewhere ↦
            let other : text_eq first.uid uid ≡ false = rw named elsewhere in
            let (one, two) = refresh_proxy-other now first active histories uid other in
            let (three, four) = refresh_proxies-own infos next.0 next.1 pi f (ground arith) in
            (three ∙ rw (two, one) refl, four ∙ rw two refl)
      ]

-- A proxy that publishes an info is active unless the sentinel has held this very info for longer
-- than twice the timeout of the proxy. The history of the proxy goes on while its info is the same,
-- and starts anew, at this instant, with another one. It is supposed that every info stands under
-- the uid of its proxy, and only there.
pub active_proxies_infos-Heard :
    (now : Time) (infos : Map ProxyInfo) (s : Sentinel) (uid : Text) (pi : ProxyInfo)
    → IsFiled infos
    → lookup uid infos ≡ some pi
    → (lookup uid (active_proxies_infos now infos s).0
        ≡ (if is_silent now (lookup uid s.proxy_info_histories) pi then none else some pi))
      × (lookup uid (active_proxies_infos now infos s).1.proxy_info_histories
          ≡ some (carried_on now (lookup uid s.proxy_info_histories) pi))
unfolding active_proxies_infos forget_missing has_key
active_proxies_infos-Heard now infos s uid pi f h =
    let known : has_key uid infos ≡ true = ground arith in
    let before = lookup-filter (λ k. has_key k infos) uid s.proxy_info_histories known in
    let (one, two) =
      refresh_proxies-own now uid infos infos
        (filter (λ e. has_key e.0 infos) s.proxy_info_histories) pi f h in
    (one ∙ rw (before, h) refl, two ∙ rw before refl)
