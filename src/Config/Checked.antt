-- ===== src/Config/Checked.antt =====
-- What the checks of internal/conf/conf.go accept.
use codefolio.Common.{
  zero, suc, ltb, ◌≤◌, ◌<◌, Text, List, [], ◌∷◌, true, false, ◌&&◌, ◌||◌, Option, none, text_eq,
  text_eq_sound, text_eq_refl, is_empty, trim_space, if◌then◌else◌, ℤ, pos, negsuc, ◌≡◌, refl, ◌↔◌,
  ◌⊎◌, inl, inr, arith, Bool-cases, Option-cases, All, map,
}
use mathlib.Core.Path.{subst}
use codefolio.Config.Servers.{
  Transport, McpServer, is_http, check_transport, check_timeout, check_server, is_known,
  validate_from, validate_mcp_servers,
}
use codefolio.Config.Load.{
  Settings, LoadError, loaded, refused, check_limits, limits_of, leb_int, part, is_negative,
  is_positive,
}
use codefolio.Context.Tokens.{context_window_tokens, max_output_tokens}

-- A timeout that is not negative.
abbrev pub IsTimeout : ℤ → Type 0
IsTimeout (pos n) = Unit
IsTimeout (negsuc n) = ⊥

check_timeout_iff : (n : ℤ) (name : Text) → (check_timeout n name ≡ none) ↔ IsTimeout n
unfolding check_timeout
check_timeout_iff (pos n) name = (λ h. tt, λ h. refl)
check_timeout_iff (negsuc n) name = (λ h. cc, λ h. absurd h)

empty_iff : (t : Text) → (is_empty t ≡ true) ↔ (t ≡ [])
empty_iff [] = (λ h. refl, λ h. refl)
empty_iff (c ∷ t) = (λ h. cc, λ h. cc)

abbrev pub trimmed : McpServer → Text
trimmed s = trim_space s.name

-- No text stands twice in a list.
abbrev pub Distinct : List Text → Type 0
Distinct [] = Unit
Distinct (k ∷ ks) = (is_known k ks ≡ false) × Distinct ks

-- Each name is new beside the names before, as the loop finds it.
abbrev Apart : List Text → List McpServer → Type 0
Apart names [] = Unit
Apart names (s ∷ ss) = (is_known (trimmed s) names ≡ false) × Apart (trimmed s ∷ names) ss

abbrev New : List Text → List McpServer → Type 0
New names [] = Unit
New names (s ∷ ss) = (is_known (trimmed s) names ≡ false) × New names ss

pub text_eq_swap : (a b : Text) → text_eq a b ≡ false → text_eq b a ≡ false
text_eq_swap a b h = elim (Bool-cases (text_eq b a)) [
  | inr other ↦ other
  | inl same ↦
      let bad : text_eq a a ≡ false = subst (λ x. text_eq a x ≡ false) (text_eq_sound b a same) h in
      cc (text_eq_refl a)
]

-- A name is new beside one more where it is new beside the others and is not that one.
New-cons :
    (n : Text) (names : List Text) (ss : List McpServer)
    → New (n ∷ names) ss ↔ ((is_known n (map trimmed ss) ≡ false) × New names ss)
unfolding is_known
New-cons n names [] = (λ h. (refl, tt), λ h. tt)
New-cons n names (s ∷ ss) =
    let ih = New-cons n names ss in
    let one = text_eq_swap n (trimmed s) in
    let two = text_eq_swap (trimmed s) n in
    (
      λ h. let r = ih.0 h.1 in (ground (arith, one, h.0, r.0), (ground (arith, h.0), r.1)),
      λ h. (ground (arith, two, h.0, h.1.0), ih.1 (ground (arith, h.0), h.1.1)),
    )

Apart-iff :
    (names : List Text) (ss : List McpServer)
    → Apart names ss ↔ (New names ss × Distinct (map trimmed ss))
Apart-iff names [] = (λ h. (tt, tt), λ h. tt)
Apart-iff names (s ∷ ss) =
    let ih = Apart-iff (trimmed s ∷ names) ss in
    let more = New-cons (trimmed s) names ss in
    (
      λ h. let r = ih.0 h.1 in let m = more.0 r.0 in ((h.0, m.1), (m.0, r.1)),
      λ h. (h.0.0, ih.1 (more.1 (h.1.0, h.0.1), h.1.1)),
    )

New-nil : (ss : List McpServer) → New [] ss
unfolding is_known
New-nil [] = tt
New-nil (s ∷ ss) = (refl, New-nil ss)

module _ (parse_uri : Text → Option (Text × Text)) where
  -- A transport with what it needs: a command and no URL, or a URL of HTTP and no command.
  abbrev pub IsReachable : Transport → McpServer → Type 0
  IsReachable Transport.stdio s = (is_empty (trim_space s.command) ≡ false) × (s.url ≡ [])
  IsReachable Transport.streamable s =
      (s.command ≡ []) × (is_empty s.url ≡ false) × (is_http parse_uri s.url ≡ true)
  IsReachable Transport.sse s =
      (s.command ≡ []) × (is_empty s.url ≡ false) × (is_http parse_uri s.url ≡ true)
  IsReachable (Transport.other t) s = ⊥

  abbrev pub IsServer : McpServer → Type 0
  IsServer s =
      (is_empty (trim_space s.name) ≡ false) × IsReachable s.transport s × IsTimeout s.timeout_ms

  check_transport_iff :
      (t : Transport) (s : McpServer) → (check_transport parse_uri t s ≡ none) ↔ IsReachable t s
  unfolding check_transport
  check_transport_iff Transport.stdio s = ground (arith, empty_iff s.url)
  check_transport_iff Transport.streamable s = ground (arith, empty_iff s.command)
  check_transport_iff Transport.sse s = ground (arith, empty_iff s.command)
  check_transport_iff (Transport.other t) s = (λ h. cc, λ h. absurd h)

  check_server_iff :
      (s : McpServer)
      → (check_server parse_uri s ≡ none) ↔ (IsReachable s.transport s × IsTimeout s.timeout_ms)
  unfolding check_server
  check_server_iff s =
      ground (
        arith,
        check_transport_iff s.transport s,
        check_timeout_iff s.timeout_ms (trim_space s.name),
      )

  validate_from_iff :
      (names : List Text) (ss : List McpServer)
      → (validate_from parse_uri names ss ≡ none) ↔ (All IsServer ss × Apart names ss)
  unfolding validate_from
  validate_from_iff names [] = (λ h. (tt, tt), λ h. refl)
  validate_from_iff names (s ∷ ss) =
      let ih = validate_from_iff (trimmed s ∷ names) ss in
      let server = check_server_iff s in
      elim (Bool-cases (is_empty (trimmed s))) [
        | inl e ↦ rw e ((λ h. cc), (λ h. cc (h.0.0.0)))
        | inr e ↦ elim (Bool-cases (is_known (trimmed s) names)) [
          | inl k ↦ rw (e, k) ((λ h. cc), (λ h. cc (h.1.0)))
          | inr k ↦ elim (Option-cases (check_server parse_uri s)) [
            | inl ok ↦
                let reach = server.0 ok in
                rw (e, k, ok)
                  (
                    (λ h. let r = ih.0 h in (((refl, reach.0, reach.1), r.0), (refl, r.1))),
                    (λ h. ih.1 (h.0.1, h.1.1)),
                  )
            | inr (err, bad) ↦
                rw (e, k, bad) ((λ h. cc), (λ h. cc (server.1 (h.0.0.1, h.0.0.2), bad)))
          ]
        ]
      ]

  -- `validateMCPServers` has no error exactly where each server has a name, a timeout that is not
  -- negative, and a command without a URL (stdio) or an HTTP URL with a host and no command (the two
  -- others), and no two names are the same when white space around them is trimmed.
  pub validate_mcp_servers_iff :
      (servers : List McpServer)
      → (validate_mcp_servers parse_uri servers ≡ none)
        ↔ (All IsServer servers × Distinct (map trimmed servers))
  unfolding validate_mcp_servers
  validate_mcp_servers_iff servers =
      let loop = validate_from_iff [] servers in
      let apart = Apart-iff [] servers in
      (
        λ h. let r = loop.0 h in (r.0, (apart.0 r.1).1),
        λ h. loop.1 (h.0, apart.1 (New-nil servers, h.1)),
      )

-- Settings that pass the tests of their token limits.
abbrev pub HasLimits : Settings → Type 0
HasLimits c =
    (is_negative c.window_tokens ≡ false)
    × (is_negative c.max_output ≡ false)
    × ((is_positive c.window_tokens && leb_int c.window_tokens c.max_output) ≡ false)

check_limits_sound : (c d : Settings) → check_limits c ≡ loaded d → (c ≡ d) × HasLimits c
unfolding check_limits
check_limits_sound c d h =
    elim (Bool-cases (is_negative c.window_tokens || is_negative c.max_output)) [
      | inl e ↦ let bad : refused LoadError.negative_limits ≡ loaded d = rw e at h in cc
      | inr e ↦
          elim (Bool-cases (is_positive c.window_tokens && leb_int c.window_tokens c.max_output)) [
            | inl k ↦
                let bad : refused LoadError.output_not_smaller ≡ loaded d = rw (e, k) at h in cc
            | inr k ↦
                let one : loaded c ≡ loaded d = rw (e, k) at h in
                (cc, (ground (arith, e), ground (arith, e), k))
          ]
    ]

-- The limits behind their defaults, for limits that are not negative.
crossed_iff :
    (w m : ℤ)
    → is_negative w ≡ false
    → is_negative m ≡ false
    → (is_positive w && leb_int w m) ≡ false
    → ((if ltb 0 (part w) then part w else 32768) ≤ (if ltb 0 (part m) then part m else 4096))
      ↔ (((part w ≡ 0) × (32768 ≤ part m)) ⊎ ((part m ≡ 0) × (0 < part w) × (part w ≤ 4096)))
crossed_iff (negsuc w) m p q r = cc
crossed_iff (pos w) (negsuc m) p q r = cc
crossed_iff (pos zero) (pos m) p q r = (λ h. inl (refl, ground (arith, h)), λ h. ground (arith, h))
crossed_iff (pos (suc w)) (pos zero) p q r =
    (λ h. inr (refl, omega arith, ground (arith, h)), λ h. ground (arith, h))
crossed_iff (pos (suc w)) (pos (suc m)) p q r =
    (λ h. absurd (ground (arith, h, r)), λ h. ground (arith, h))

-- Of the settings that `Load` accepts, those whose window does not exceed the output reserved in it,
-- once the defaults stand in for zeros, are these: the window is left to its default and the output
-- is at least as large, or the output is left to its default and the window is at most as large.
pub limits_crossed_iff :
    (c d : Settings)
    → check_limits c ≡ loaded d
    → (context_window_tokens (limits_of d) ≤ max_output_tokens (limits_of d)) ↔ (
        ((part d.window_tokens ≡ 0) × (32768 ≤ part d.max_output))
        ⊎ ((part d.max_output ≡ 0) × (0 < part d.window_tokens) × (part d.window_tokens ≤ 4096)))
unfolding context_window_tokens max_output_tokens limits_of
limits_crossed_iff c d h =
    let (same, (w, m, smaller)) = check_limits_sound c d h in
    subst
      (λ (x : Settings). (context_window_tokens (limits_of x) ≤ max_output_tokens (limits_of x)) ↔ (
        ((part x.window_tokens ≡ 0) × (32768 ≤ part x.max_output))
        ⊎ ((part x.max_output ≡ 0) × (0 < part x.window_tokens) × (part x.window_tokens ≤ 4096))))
      same (crossed_iff c.window_tokens c.max_output w m smaller)
