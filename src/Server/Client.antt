-- ===== src/Server/Client.antt =====
-- Which address `clientIP` registers.
use goddns.Base.{
  Bool, true, false, not, ◌&&◌, ◌||◌, List, [], ◌∷◌, ◌++◌, Option, none, some, ◌≡◌, refl, ap, ◌⊎◌,
  inl, inr, arith, if◌then◌else◌, is_empty, All, reverse, Bool-cases,
}
use goddns.Base.Strings.{Bytes, trim_space, split}
use goddns.Base.Result.{ok}
use goddns.Net.{
  IpNet, TextForms, is_loopback, is_unspecified, is_multicast, is_link_local_unicast,
  is_link_local_multicast,
}
use goddns.Server.{
  Request, is_trusted, is_refused, first_untrusted, forwarded, overridden, or_peer, peer_of,
  client_ip,
}

all_false :
    (a b c d e : Bool)
    → (a || b || c || d || e) ≡ false
    → (a ≡ false) × (b ≡ false) × (c ≡ false) × (d ≡ false) × (e ≡ false)
all_false a b c d e h = ground arith

overridden-inv :
    (forms : TextForms) (found ip : Bytes)
    → overridden forms found ≡ ok ip
    → (ip ≡ found) × (is_refused ip ≡ false)
overridden-inv forms found ip e = ground arith

or_peer-inv :
    (forms : TextForms) (peer : Bytes) (b : Bool) (found : Option Bytes) (ip : Bytes)
    → or_peer forms peer (if b then found else none) ≡ ok ip
    → ((ip ≡ peer) × (is_empty ip ≡ false)) ⊎ ((b ≡ true) × (found ≡ some ip))
or_peer-inv forms peer b (some cand) ip e = ground arith
or_peer-inv forms peer b none ip e = ground arith

module _ (forms : TextForms) (nets : List IpNet) where
  -- An override decides alone: no header and no peer counts, and the address that is registered
  -- is the one it names, which is not loopback, unspecified, multicast or link-local.
  pub client_ip-override :
      (r s : Request) (override ip : Bytes)
      → is_empty override ≡ false
      → client_ip forms nets r override ≡ ok ip
      → (client_ip forms nets s override ≡ ok ip)
        × (ip ≡ forms.parse_ip (trim_space override))
        × (is_loopback ip ≡ false)
        × (is_unspecified ip ≡ false)
        × (is_multicast ip ≡ false)
        × (is_link_local_unicast ip ≡ false)
        × (is_link_local_multicast ip ≡ false)
  unfolding client_ip is_refused
  client_ip-override r s override ip some_override e =
      let e' : overridden forms (forms.parse_ip (trim_space override)) ≡ ok ip = ground arith in
      let (same, fine) = overridden-inv forms (forms.parse_ip (trim_space override)) ip e' in
      let (a, b, c, d, f) = all_false _ _ _ _ _ fine in (ground arith, same, a, b, c, d, f)

  -- A hop that the walk passes over: unreadable, or a trusted proxy.
  abbrev pub IsSkipped : Bytes → Type 0
  IsSkipped hop =
      let cand = forms.parse_ip (trim_space hop) in (is_empty cand || is_trusted nets cand) ≡ true

  -- The last hops of a chain are skipped, and the one in front of them is taken.
  pub record Taken (hops : List Bytes) (ip : Bytes) : Type 0 where
    pub nearer : List Bytes
    pub hop : Bytes
    pub farther : List Bytes
    pub hops_are : hops ≡ nearer ++ (hop ∷ farther)
    pub skipped : All IsSkipped nearer
    pub ip_is : ip ≡ forms.parse_ip (trim_space hop)
    pub readable : is_empty ip ≡ false
    pub untrusted : is_trusted nets ip ≡ false

  first_untrusted-Taken :
      (hops : List Bytes) (ip : Bytes) → first_untrusted forms nets hops ≡ some ip → Taken hops ip
  unfolding first_untrusted
  first_untrusted-Taken [] ip e = cc
  first_untrusted-Taken (hop ∷ hops) ip e =
      elim (Bool-cases (
        is_empty (forms.parse_ip (trim_space hop))
        || is_trusted nets (forms.parse_ip (trim_space hop)))) [
          | inl skip ↦
              let t = first_untrusted-Taken hops ip (ground arith) in
              record {
                nearer = hop ∷ t.nearer;
                hop = t.hop;
                farther = t.farther;
                hops_are = ap (◌∷◌ hop) t.hops_are;
                skipped = (skip, t.skipped);
                ip_is = t.ip_is;
                readable = t.readable;
                untrusted = t.untrusted;
              }
          | inr take_it ↦ record {
            nearer = [];
            hop = hop;
            farther = hops;
            hops_are = refl;
            skipped = tt;
            ip_is = ground arith;
            readable = ground arith;
            untrusted = ground arith;
          }
        ]

  -- Without an override the address is the peer's, or, only if the peer is a trusted proxy, the
  -- first readable hop of X-Forwarded-For, from the right, that is not a trusted proxy.
  pub client_ip-peer :
      (r : Request) (ip : Bytes)
      → client_ip forms nets r [] ≡ ok ip
      → ((ip ≡ peer_of forms r) × (is_empty ip ≡ false))
        ⊎ ((is_trusted nets (peer_of forms r) ≡ true)
            × (is_empty (peer_of forms r) ≡ false)
            × Taken (reverse (split b',' r.forwarded_for)) ip)
  unfolding client_ip forwarded
  client_ip-peer r ip e =
      let peer = peer_of forms r in
      elim (or_peer-inv forms peer (not (is_empty peer) && is_trusted nets peer)
        (forwarded forms nets r.forwarded_for) ip e) [
          | inl own ↦ inl own
          | inr (b, found) ↦
              inr (ground (arith, b), ground (arith, b), first_untrusted-Taken _ ip (hops_of found))
        ]
    where
      hops_of :
          forwarded forms nets r.forwarded_for ≡ some ip
          → first_untrusted forms nets (reverse (split b',' r.forwarded_for)) ≡ some ip
      hops_of found = ground arith

  -- From a peer that is no trusted proxy X-Forwarded-For is not read.
  pub client_ip-untrusted :
      (r : Request) (header override : Bytes)
      → is_trusted nets (peer_of forms r) ≡ false
      → client_ip forms nets (record r { forwarded_for = header }) override
        ≡ client_ip forms nets r override
  unfolding client_ip
  client_ip-untrusted r header override h = ground arith
