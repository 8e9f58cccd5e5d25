-- ===== src/Security/Tests.antt =====
-- The cases of security_test.go, and the theorem at one of them.
use woocoo.Base.{◌≡◌, ◌↔◌, refl, true, false, codes}
use woocoo.Security.Policy.{match_resource, Fits, match_resource_iff}

wildcard : match_resource (codes "oss:bucket/*") (codes "oss:bucket/object") ≡ true
unfolding match_resource
wildcard = refl

one_rune :
    (match_resource (codes "oss:bucket/object?") (codes "oss:bucket/object1") ≡ true)
    × (match_resource (codes "oss:bucket/object?") (codes "oss:bucket/object") ≡ false)
unfolding match_resource
one_rune = (refl, refl)

match_resource_iff_example :
    (match_resource (codes "a*?") (codes "abc") ≡ true) ↔ Fits (codes "a*?") (codes "abc")
match_resource_iff_example = match_resource_iff (codes "a*?") (codes "abc")
