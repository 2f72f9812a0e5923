-- ===== src/Ssrf/Private.antt =====
-- Which addresses are private.
use velotradex.Base.{
  ℕ, ◌+◌, ◌*◌, ◌≤◌, ◌<◌, ◌≡◌, ◌≢◌, refl, ◌↔◌, ◌⊎◌, inl, inr, Bool, true, false, ◌&&◌, ◌||◌, some,
  List, [], ◌∷◌, arith, find, find-none_Memᴰ, Memᴰ, ok, Option-cases, leb,
}
use velotradex.Ssrf.{Ipv4, ipv4_to_int, is_private_ip, check_resolved, refused_if_found}

abbrev pub IsIpv4 : Ipv4 → Type 0
IsIpv4 ip = (ip.a < 256) × (ip.b < 256) × (ip.c < 256) × (ip.d < 256)

-- The networks 10.0.0.0/8, 172.16.0.0/12, 192.168.0.0/16, 127.0.0.0/8, 169.254.0.0/16 and 0.0.0.0/8.
abbrev pub IsPrivate : Ipv4 → Type 0
IsPrivate ip =
    (ip.a ≡ 10)
    ⊎ ((ip.a ≡ 172) × (16 ≤ ip.b) × (ip.b ≤ 31))
    ⊎ ((ip.a ≡ 192) × (ip.b ≡ 168))
    ⊎ (ip.a ≡ 127)
    ⊎ ((ip.a ≡ 169) × (ip.b ≡ 254))
    ⊎ (ip.a ≡ 0)

ipv4_to_int_lem :
    (ip : Ipv4) → IsIpv4 ip → ipv4_to_int ip ≡ ip.a * 16777216 + ip.b * 65536 + ip.c * 256 + ip.d
unfolding ipv4_to_int
ipv4_to_int_lem ip (a, b, c, d) = omega (arith, a, b, c, d)

within_iff : (s e n : ℕ) → ((leb s n && leb n e) ≡ true) ↔ ((s ≤ n) × (n ≤ e))
within_iff s e n = ground arith

-- A disjunction of tests means a disjunction of what they test.
either_iff :
    {P Q : Type 0} (p q : Bool) → (p ≡ true) ↔ P → (q ≡ true) ↔ Q → ((p || q) ≡ true) ↔ (P ⊎ Q)
either_iff true q f g = (λ h. inl (f.0 refl), λ h. refl)
either_iff false q f g = (λ h. inr (g.0 h), λ h. elim h [ inl x ↦ cc (f.1 x) | inr y ↦ g.1 y ])

or_false_iff : {P : Type 0} (p : Bool) → (p ≡ true) ↔ P → ((p || false) ≡ true) ↔ P
or_false_iff true f = f
or_false_iff false f = f

iff_trans : {P Q R : Type 0} → P ↔ Q → Q ↔ R → P ↔ R
iff_trans f g = (λ x. g.0 (f.0 x), λ z. f.1 (g.1 z))

-- The six ranges, for the number of an address of four bytes.
module _ (a b c d n : ℕ) (la : a < 256) (lb : b < 256) (lc : c < 256) (ld : d < 256)
    (e : n ≡ a * 16777216 + b * 65536 + c * 256 + d) where
  ten : ((0x0A000000 ≤ n) × (n ≤ 0x0AFFFFFF)) ↔ (a ≡ 10)
  ten = (λ h. omega (arith, h.0, h.1), λ h. (omega (arith, h), omega (arith, h)))

  one_seven_two : ((0xAC100000 ≤ n) × (n ≤ 0xAC1FFFFF)) ↔ ((a ≡ 172) × (16 ≤ b) × (b ≤ 31))
  one_seven_two = (
    λ h. (omega (arith, h.0, h.1), omega (arith, h.0, h.1), omega (arith, h.0, h.1)),
    λ h. (omega (arith, h.0, h.1, h.2), omega (arith, h.0, h.1, h.2)),
  )

  one_nine_two : ((0xC0A80000 ≤ n) × (n ≤ 0xC0A8FFFF)) ↔ ((a ≡ 192) × (b ≡ 168))
  one_nine_two = (
    λ h. (omega (arith, h.0, h.1), omega (arith, h.0, h.1)),
    λ h. (omega (arith, h.0, h.1), omega (arith, h.0, h.1)),
  )

  one_two_seven : ((0x7F000000 ≤ n) × (n ≤ 0x7FFFFFFF)) ↔ (a ≡ 127)
  one_two_seven = (λ h. omega (arith, h.0, h.1), λ h. (omega (arith, h), omega (arith, h)))

  one_six_nine : ((0xA9FE0000 ≤ n) × (n ≤ 0xA9FEFFFF)) ↔ ((a ≡ 169) × (b ≡ 254))
  one_six_nine = (
    λ h. (omega (arith, h.0, h.1), omega (arith, h.0, h.1)),
    λ h. (omega (arith, h.0, h.1), omega (arith, h.0, h.1)),
  )

  zero_net : ((0x00000000 ≤ n) × (n ≤ 0x00FFFFFF)) ↔ (a ≡ 0)
  zero_net = (λ h. omega (arith, h.0, h.1), λ h. (omega (arith, h), omega (arith, h)))

-- An address of four bytes is refused exactly if it lies in one of the networks 10.0.0.0/8,
-- 172.16.0.0/12, 192.168.0.0/16, 127.0.0.0/8, 169.254.0.0/16 and 0.0.0.0/8.
pub is_private_ip_iff : (ip : Ipv4) → IsIpv4 ip → (is_private_ip ip ≡ true) ↔ IsPrivate ip
unfolding is_private_ip
is_private_ip_iff ip (la, lb, lc, ld) =
    let n = ipv4_to_int ip in
    let e = ipv4_to_int_lem ip (la, lb, lc, ld) in
    let net : (s t : ℕ) (P : Type 0) → ((s ≤ n) × (n ≤ t)) ↔ P → ((leb s n && leb n t) ≡ true) ↔ P =
      λ s t P f. iff_trans (within_iff s t n) f in
    either_iff _ _ (net _ _ _ (ten ip.a ip.b ip.c ip.d n la lb lc ld e)) (
      either_iff _ _ (net _ _ _ (one_seven_two ip.a ip.b ip.c ip.d n la lb lc ld e)) (
        either_iff _ _ (net _ _ _ (one_nine_two ip.a ip.b ip.c ip.d n la lb lc ld e)) (
          either_iff _ _ (net _ _ _ (one_two_seven ip.a ip.b ip.c ip.d n la lb lc ld e)) (
            either_iff _ _ (net _ _ _ (one_six_nine ip.a ip.b ip.c ip.d n la lb lc ld e))
              (or_false_iff _ (net _ _ _ (zero_net ip.a ip.b ip.c ip.d n la lb lc ld e)))))))

-- A host whose check succeeds resolved to at least one address, and, where the name server gave four
-- bytes each, to none of a private network.
pub check_resolved-IsPublic :
    (ips : List Ipv4)
    → check_resolved (ok ips) ≡ ok tt
    → (ips ≢ []) × ((ip : Ipv4) → Memᴰ ip ips → IsIpv4 ip → ¬ IsPrivate ip)
unfolding check_resolved
check_resolved-IsPublic [] h = cc
check_resolved-IsPublic (i ∷ is) h = elim (Option-cases (find is_private_ip (i ∷ is))) [
  | inl clear ↦ (
    λ e. cc,
    λ ip m v private. cc ((is_private_ip_iff ip v).1 private, find-none_Memᴰ is_private_ip clear m),
  )
  | inr (ip, found) ↦ let no : refused_if_found (some ip) ≡ ok tt = rw found at h in cc
]
