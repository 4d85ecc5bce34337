-- ===== src/Executor/Dial/Ranges.antt =====
-- Which addresses the dialer connects to.
use distributed_scheduler.Prelude.{
  ℕ, zero, suc, ◌+◌, ◌*◌, ◌%◌, ◌≤◌, ◌<◌, ◌≡◌, refl, ◌↔◌, ◌⊎◌, inl, inr, Bool, true, false, ◌||◌,
  Option, none, some, List, [], ◌∷◌, length, All, All-drop, drop, ◌==◌, subst, arith, Bool-cases,
  Option-cases,
}
use distributed_scheduler.Texts.{Text, text_eq}
use distributed_scheduler.Texts.Substrings.{eq_of_text_eq, text_eq_of_eq}
use distributed_scheduler.Executor.Dial.{
  Ip, byte, to4, ipv6_loopback, is_loopback, is_private, is_link_local_unicast,
  is_link_local_multicast, blocked_ip, check_ips, Dialed, connect, dial,
}

-- The blocks, as intervals of 32-bit numbers: 127/8, 10/8, 172.16/12, 192.168/16, 169.254/16 and
-- 224.0.0/24.
abbrev pub Between : ℕ → ℕ → ℕ → Type 0
Between low high n = (low ≤ n) × (n ≤ high)

abbrev pub InBlocks : ℕ → Type 0
InBlocks n =
    Between 0x7F000000 0x7FFFFFFF n
    ⊎ (Between 0x0A000000 0x0AFFFFFF n
        ⊎ (Between 0xAC100000 0xAC1FFFFF n
            ⊎ (Between 0xC0A80000 0xC0A8FFFF n
                ⊎ (Between 0xA9FE0000 0xA9FEFFFF n ⊎ Between 0xE0000000 0xE00000FF n))))

-- ::1, fc00::/7, fe80::/10, and ff02::/16 with any flags
abbrev pub InBlocks6 : Ip → Type 0
InBlocks6 ip =
    (ip ≡ ipv6_loopback)
    ⊎ (Between 0xFC 0xFD (byte ip 0)
        ⊎ (((byte ip 0 ≡ 0xFE) × Between 0x80 0xBF (byte ip 1))
            ⊎ ((byte ip 0 ≡ 0xFF) × (byte ip 1 % 16 ≡ 2))))

abbrev pub number : Ip → ℕ
number ip = byte ip 0 * 0x1000000 + byte ip 1 * 0x10000 + byte ip 2 * 0x100 + byte ip 3

abbrev pub InternalAs : Option Ip → Ip → Type 0
InternalAs (some ip4) ip = InBlocks (number ip4)
InternalAs none ip = InBlocks6 ip

abbrev pub IsInternal : Ip → Type 0
IsInternal ip = InternalAs (to4 ip) ip

abbrev pub IsIp : Ip → Type 0
IsIp ip = All (λ b. b < 256) ip × ((length ip ≡ 4) ⊎ (length ip ≡ 16))

-- The four tests of package net.
abbrev tests : Option Ip → Ip → Bool
tests t ip =
    is_loopback t ip
    || is_private t ip
    || is_link_local_unicast t ip
    || is_link_local_multicast t ip

byte_lt : (ip : Ip) (i : ℕ) → All (λ b. b < 256) ip → byte ip i < 256
byte_lt [] i h = omega arith
byte_lt (b ∷ ip) zero h = h.0
byte_lt (b ∷ ip) (suc i) h = byte_lt ip i h.1

tests4_iff :
    (ip4 ip : Ip) → All (λ b. b < 256) ip4 → (tests (some ip4) ip ≡ true) ↔ InBlocks (number ip4)
unfolding is_loopback is_private is_link_local_unicast is_link_local_multicast
tests4_iff ip4 ip h =
    let ha = byte_lt ip4 0 h in
    let hb = byte_lt ip4 1 h in
    let hc = byte_lt ip4 2 h in let hd = byte_lt ip4 3 h in (λ k. ground arith, λ k. ground arith)

tests6_iff :
    (ip : Ip)
    → length ip ≡ 16
    → byte ip 0 < 256
    → byte ip 1 < 256
    → (tests none ip ≡ true) ↔ InBlocks6 ip
unfolding is_loopback is_private is_link_local_unicast is_link_local_multicast
tests6_iff ip l h0 h1 = (
  λ k. elim (Bool-cases (text_eq ip ipv6_loopback)) [
    | inl e ↦ inl (eq_of_text_eq ip ipv6_loopback e)
    | inr e ↦ inr (ground arith)
  ],
  λ k. elim k [
    | inl e ↦ let e' = text_eq_of_eq ip ipv6_loopback e in ground arith
    | inr r ↦ ground arith
  ],
)

to4-bytes : (ip ip4 : Ip) → All (λ b. b < 256) ip → to4 ip ≡ some ip4 → All (λ b. b < 256) ip4
unfolding to4
to4-bytes ip ip4 h e = elim (Bool-cases (length ip == 4)) [
  | inl f ↦ let g : ip ≡ ip4 = ground arith in subst (All (λ b. b < 256)) g h
  | inr f ↦
      let g : drop 12 ip ≡ ip4 = ground arith in
      subst (All (λ b. b < 256)) g (All-drop (λ b. b < 256) 12 ip h)
]

to4-none : (ip : Ip) → IsIp ip → to4 ip ≡ none → length ip ≡ 16
unfolding to4
to4-none ip h e = ground arith

blocked_ip-none : (ip : Ip) → blocked_ip ip ≡ none → tests (to4 ip) ip ≡ false
unfolding blocked_ip
blocked_ip-none ip h = ground arith

tests-blocked_ip : (ip : Ip) → tests (to4 ip) ip ≡ false → blocked_ip ip ≡ none
unfolding blocked_ip is_link_local_unicast
tests-blocked_ip ip h = elim (Option-cases (to4 ip)) [
  | inl e ↦ ground arith
  | inr (ip4, e) ↦ ground arith
]

tests_iff : (ip : Ip) → IsIp ip → (tests (to4 ip) ip ≡ true) ↔ IsInternal ip
tests_iff ip h = elim (Option-cases (to4 ip)) [
  | inl e ↦ rw e (tests6_iff ip (to4-none ip h e) (byte_lt ip 0 h.0) (byte_lt ip 1 h.0))
  | inr (ip4, e) ↦ rw e (tests4_iff ip4 ip (to4-bytes ip ip4 h.0 e))
]

-- The body of the loop lets an address pass exactly when it lies outside the blocks.
pub blocked_ip_iff : (ip : Ip) → IsIp ip → (blocked_ip ip ≡ none) ↔ (¬ IsInternal ip)
blocked_ip_iff ip h = (
  λ b i. let t = (tests_iff ip h).1 i in let f = blocked_ip-none ip b in absurd cc,
  λ n. elim (Bool-cases (tests (to4 ip) ip)) [
    | inl t ↦ absurd (n ((tests_iff ip h).0 t))
    | inr f ↦ tests-blocked_ip ip f
  ],
)

abbrev pub IsExternal : Ip → Type 0
IsExternal ip = ¬ IsInternal ip

check_ips-connect :
    (ips : List Ip) (after : Dialed) (ip : Ip) (port : Text)
    → All IsIp ips
    → check_ips ips after ≡ connect ip port
    → All IsExternal ips × (after ≡ connect ip port)
unfolding check_ips
check_ips-connect [] after ip port w h = (tt, h)
check_ips-connect (i ∷ ips) after ip port (v, w) h = elim (Option-cases (blocked_ip i)) [
  | inl e ↦
      let rest = check_ips-connect ips after ip port w (ground arith) in
      (((blocked_ip_iff i v).0 e, rest.0), rest.1)
  | inr (x, e) ↦ absurd (ground arith)
]

All-check_ips :
    (ips : List Ip) (after : Dialed)
    → All IsIp ips
    → All IsExternal ips
    → check_ips ips after ≡ after
unfolding check_ips
All-check_ips [] after w h = refl
All-check_ips (i ∷ ips) after (v, w) (n, h) =
    rw ((blocked_ip_iff i v).1 n) (All-check_ips ips after w h)

module _ (split_host_port : Text → Option (Text × Text)) (lookup_ip : Text → Option (List Ip)) where
  -- Where the address splits and its host resolves to at least one address, the dialer connects to
  -- the first of them exactly when all of them lie outside 127/8, 10/8, 172.16/12, 192.168/16,
  -- 169.254/16 and 224.0.0/24 (also in the form of IPv6), and are not ::1 nor in fc00::/7, fe80::/10
  -- and the link-local multicast of IPv6.
  pub dial_lem :
      (addr host port : Text) (ip : Ip) (ips : List Ip)
      → All IsIp (ip ∷ ips)
      → split_host_port addr ≡ some (host, port)
      → lookup_ip host ≡ some (ip ∷ ips)
      → (dial split_host_port lookup_ip addr ≡ connect ip port) ↔ All IsExternal (ip ∷ ips)
  unfolding dial
  dial_lem addr host port ip ips w s l = (
    λ h. let k = rw (s, l) at h in (check_ips-connect (ip ∷ ips) (connect ip port) ip port w k).0,
    λ h. rw (s, l) (All-check_ips (ip ∷ ips) (connect ip port) w h),
  )
