-- ===== src/Ssrf/Tests.antt =====
-- A public address, and a private one among two.
use velotradex.Base.{◌≡◌, refl, ◌↔◌, ◌≢◌, true, [], ◌∷◌, ok, throws, find, arith, Memᴰ}
use velotradex.Ssrf.{Ipv4, ipv4_to_int, is_private_ip, check_resolved}
use velotradex.Ssrf.Private.{IsIpv4, IsPrivate, is_private_ip_iff, check_resolved-IsPublic}

ssrf : Unit {0}
unfolding ipv4_to_int is_private_ip check_resolved find
ssrf = tt

abbrev public : Ipv4
public = record { a = 172; b = 32; c = 0; d = 1 }

abbrev private : Ipv4
private = record { a = 172; b = 31; c = 255; d = 255 }

private_refused :
    check_resolved (ok (public ∷ private ∷ []))
    ≡ throws "SSRF check failed: host resolves to a private IP address"
unfolding ssrf
private_refused = refl

public_passed : check_resolved (ok (public ∷ [])) ≡ ok tt
unfolding ssrf
public_passed = refl

is_private_ip_iff_example : (is_private_ip private ≡ true) ↔ IsPrivate private
is_private_ip_iff_example =
    is_private_ip_iff private (omega arith, omega arith, omega arith, omega arith)

check_resolved-IsPublic_example :
    (public ∷ [] ≢ []) × ((ip : Ipv4) → Memᴰ ip (public ∷ []) → IsIpv4 ip → ¬ IsPrivate ip)
check_resolved-IsPublic_example = check_resolved-IsPublic (public ∷ []) public_passed
