-- ===== src/Executor/Dial.antt =====
-- worker/executor.go, ssrfSafeClient: the dialer and the redirect check that the HTTP client is
-- given. Go's net.IP is a list of four or sixteen bytes; the resolver and the splitting of an address
-- are parameters.
pub mod Ranges
use distributed_scheduler.Prelude.{
  ℕ, zero, suc, ◌/◌, ◌%◌, Bool, true, false, not, ◌&&◌, ◌||◌, Option, none, some, List, [], ◌∷◌,
  length, drop, leb, ◌==◌, if◌then◌else◌,
}
use distributed_scheduler.Texts.{Text, text_eq}

abbrev pub Ip : Type 0
Ip = List ℕ

-- ip[i], of an address that is long enough
abbrev pub byte : Ip → ℕ → ℕ
byte [] i = 0
byte (b ∷ ip) zero = b
byte (b ∷ ip) (suc i) = byte ip i

-- 0:0:0:0:0:ffff:…
starts_as_v4 : Ip → Bool
starts_as_v4 ip =
    byte ip 0 == 0
    && byte ip 1 == 0
    && byte ip 2 == 0
    && byte ip 3 == 0
    && byte ip 4 == 0
    && byte ip 5 == 0
    && byte ip 6 == 0
    && byte ip 7 == 0
    && byte ip 8 == 0
    && byte ip 9 == 0
    && byte ip 10 == 255
    && byte ip 11 == 255

-- IP.To4
unfoldable pub to4 : Ip → Option Ip
unfolding starts_as_v4
to4 ip =
    if length ip == 4
    then some ip
    else if length ip == 16 && starts_as_v4 ip
    then some (drop 12 ip)
    else none

abbrev pub ipv6_loopback : Ip
ipv6_loopback = 0 ∷ 0 ∷ 0 ∷ 0 ∷ 0 ∷ 0 ∷ 0 ∷ 0 ∷ 0 ∷ 0 ∷ 0 ∷ 0 ∷ 0 ∷ 0 ∷ 0 ∷ 1 ∷ []

-- The tests of package net, once for the four bytes of IPv4 and once for sixteen.
unfoldable pub is_loopback : Option Ip → Ip → Bool
is_loopback (some ip4) ip = byte ip4 0 == 127
is_loopback none ip = text_eq ip ipv6_loopback

unfoldable pub is_private : Option Ip → Ip → Bool
is_private (some ip4) ip =
    byte ip4 0 == 10
    || (byte ip4 0 == 172 && byte ip4 1 / 16 == 1)
    || (byte ip4 0 == 192 && byte ip4 1 == 168)
is_private none ip = length ip == 16 && byte ip 0 / 2 == 126

unfoldable pub is_link_local_unicast : Option Ip → Ip → Bool
is_link_local_unicast (some ip4) ip = byte ip4 0 == 169 && byte ip4 1 == 254
is_link_local_unicast none ip = length ip == 16 && (byte ip 0 == 254 && byte ip 1 / 64 == 2)

unfoldable pub is_link_local_multicast : Option Ip → Ip → Bool
is_link_local_multicast (some ip4) ip = byte ip4 0 == 224 && (byte ip4 1 == 0 && byte ip4 2 == 0)
is_link_local_multicast none ip = length ip == 16 && (byte ip 0 == 255 && byte ip 1 % 16 == 2)

is_metadata : Option Ip → Bool
is_metadata (some ip4) = byte ip4 0 == 169 && byte ip4 1 == 254
is_metadata none = false

pub data DialError : Type 0 where
  invalid_address : Text → DialError
  lookup_failed : Text → DialError
  blocked_private blocked_metadata : Ip → DialError

-- The connection that the inner dialer is asked for, an error, or a run-time panic.
pub data Dialed : Type 0 where
  connect : Ip → (port : Text) → Dialed
  refused : DialError → Dialed
  crashed : Dialed

-- The body of the loop over the addresses.
unfoldable pub blocked_ip : Ip → Option DialError
unfolding is_loopback is_private is_link_local_unicast is_link_local_multicast is_metadata
blocked_ip ip =
    if is_loopback (to4 ip) ip
      || is_private (to4 ip) ip
      || is_link_local_unicast (to4 ip) ip
      || is_link_local_multicast (to4 ip) ip
    then some (blocked_private ip)
    else if is_metadata (to4 ip)
    then some (blocked_metadata ip)
    else none

refuse_or : Option DialError → Dialed → Dialed
refuse_or (some x) rest = refused x
refuse_or none rest = rest

-- ips[0]
connect_first : List Ip → Text → Dialed
connect_first [] port = crashed
connect_first (ip ∷ ips) port = connect ip port

unfoldable pub check_ips : List Ip → Dialed → Dialed
unfolding refuse_or
check_ips [] after = after
check_ips (ip ∷ ips) after = refuse_or (blocked_ip ip) (check_ips ips after)

module _ (split_host_port : Text → Option (Text × Text)) (lookup_ip : Text → Option (List Ip)) where
  abbrev dial_resolved : Text → Text → Option (List Ip) → Dialed
  dial_resolved host port none = refused (lookup_failed host)
  dial_resolved host port (some ips) = check_ips ips (connect_first ips port)

  abbrev dial_split : Text → Option (Text × Text) → Dialed
  dial_split addr none = refused (invalid_address addr)
  dial_split addr (some (host, port)) = dial_resolved host port (lookup_ip host)

  -- DialContext
  unfoldable pub dial : Text → Dialed
  unfolding connect_first
  dial addr = dial_split addr (split_host_port addr)

-- CheckRedirect, by the number of requests made already
unfoldable pub may_redirect : ℕ → Bool
may_redirect via = not (leb 5 via)
