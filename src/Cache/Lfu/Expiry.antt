-- ===== src/Cache/Lfu/Expiry.antt =====
-- The time to live that `fixTTL` of pkg/cache/lfu/cache.go gives an item.
use woocoo.Base.{ℕ, ◌+◌, ◌/◌, ◌≤◌, ◌<◌, ◌≡◌, true, false, some, arith, ltb, ◌==◌, if◌then◌else◌}
use woocoo.Base.Int.{ℤ, pos, negsuc}
use woocoo.Cache.{Options, is, skip_remote}
use woocoo.Cache.Lfu.{Config, apply_offset, capped, or_default, fix_ttl}

-- The random source gives a number below its bound.
abbrev pub IsBounded : (ℕ → ℕ) → Type 0
IsBounded draw = (n : ℕ) → 0 < n → draw n < n

-- The time asked for, at most the cache's own; a time that is not positive is the cache's own.
abbrev pub asked : Config → ℤ → ℕ
asked c (negsuc n) = c.ttl
asked c (pos n) = if n == 0 then c.ttl else if ltb c.ttl n then c.ttl else n

capped-asked :
    (c : Config) (ttl : ℤ) (opt : Options)
    → c.subsidiary ≡ true
    → is opt.skip skip_remote ≡ false
    → or_default c (capped c ttl opt) ≡ asked c ttl
capped-asked c (pos n) opt h k = rw (h, k) (ground arith)
capped-asked c (negsuc n) opt h k = rw (h, k) (ground arith)

offset-le :
    (c0 c : Config)
    → apply_offset c0 ≡ some c
    → c.subsidiary ≡ true
    → c.offset ≤ c.ttl / c.deviation
unfolding apply_offset
offset-le c0 c e h = ground arith

share_mono : (a b n : ℕ) → a ≤ b → a / n ≤ b / n
share_mono a b n h = grind arith

-- In a subsidiary cache, for a call that does not skip the remote cache, an item lives at least as
-- long as asked, with the cache's own time as the limit, and at most a share of that limit longer:
-- the random part is added, and does not shorten the time.
pub fix_ttl-range :
    (draw : ℕ → ℕ) (c0 c : Config) (ttl : ℤ) (opt : Options) (t : ℕ)
    → IsBounded draw
    → apply_offset c0 ≡ some c
    → c.subsidiary ≡ true
    → is opt.skip skip_remote ≡ false
    → fix_ttl draw c ttl opt ≡ some t
    → (asked c ttl ≤ t) × (t ≤ asked c ttl + c.ttl / c.deviation)
unfolding fix_ttl
fix_ttl-range draw c0 c ttl opt t d e h k f =
    let b = asked c ttl in
    let f' = rw (capped-asked c ttl opt h k) at f in
    let o = offset-le c0 c e h in
    ground (arith, d c.offset, d (b / c.deviation), share_mono b c.ttl c.deviation)
