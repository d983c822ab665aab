-- ===== src/Memstats/Report.antt =====
-- What sys_memstats of hw5/memstats.c reports of the lists of pages.
use cs.Base.{
  ℕ, suc, ◌+◌, ◌≡◌, refl, ap, ap₂, ◌∙◌, List, [], ◌∷◌, ◌++◌, arith, length, length-append,
}
use cs.Memstats.{Page, Zone, Stats, Counters, ulong, bit, count_pages, count_zones, sys_memstats}

-- The pages of all zones, and their reference bits.
abbrev pub all_active : List Zone → List Page
all_active [] = []
all_active (z ∷ zs) = z.active_list ++ all_active zs

abbrev pub all_inactive : List Zone → List Page
all_inactive [] = []
all_inactive (z ∷ zs) = z.inactive_list ++ all_inactive zs

abbrev pub ref_bits : List Page → ℕ
ref_bits [] = 0
ref_bits (p ∷ ps) = bit p.referenced + ref_bits ps

ref_bits-append : (ps qs : List Page) → ref_bits (ps ++ qs) ≡ ref_bits ps + ref_bits qs
ref_bits-append [] qs = omega arith
ref_bits-append (p ∷ ps) qs = omega (arith, ref_bits-append ps qs)

ulong-ulong_add : (a b : ℕ) → ulong (ulong a + b) ≡ ulong (a + b)
ulong-ulong_add a b = omega arith

count_pages_lem :
    (ps : List Page) (n bits : ℕ)
    → count_pages ps (ulong n) (ulong bits) ≡ (ulong (n + length ps), ulong (bits + ref_bits ps))
unfolding count_pages
count_pages_lem [] n bits =
    ap₂ (λ a b. (ulong a, ulong b)) {x = n} {y = n + 0} (omega arith) (omega arith)
count_pages_lem (p ∷ ps) n bits =
    ap₂ (λ a b. count_pages ps a b) (ulong-ulong_add n 1) (ulong-ulong_add bits (bit p.referenced))
    ∙ count_pages_lem ps (n + 1) (bits + bit p.referenced)
    ∙ ap₂ (λ a b. (ulong a, ulong b)) {x = n + 1 + length ps} {y = n + suc (length ps)}
        (omega arith) (omega arith)

abbrev counters : ℕ → ℕ → ℕ → ℕ → Counters
counters a i active_bits inactive_bits = record {
  active_count = ulong a;
  inactive_count = ulong i;
  active_ref_bit_count = ulong active_bits;
  inactive_ref_bit_count = ulong inactive_bits;
}

-- What sys_memstats should report of the zones.
abbrev pub report : List Zone → Counters
report zs = record {
  active_count = ulong (length (all_active zs));
  inactive_count = ulong (length (all_inactive zs));
  active_ref_bit_count = ulong (ref_bits (all_active zs));
  inactive_ref_bit_count = ulong (ref_bits (all_inactive zs));
}

count_zones-cons :
    (z : Zone) (zs : List Zone) (a i b c : ℕ)
    → count_zones (z ∷ zs) (counters a i b c)
      ≡ count_zones zs (
          counters
            (a + length z.active_list)
            (i + length z.inactive_list)
            (b + ref_bits z.active_list)
            (c + ref_bits z.inactive_list))
unfolding count_zones
count_zones-cons z zs a i b c =
    rw (count_pages_lem z.active_list a b, count_pages_lem z.inactive_list i c) refl

counters_same :
    {a a' i i' b b' c c' : ℕ}
    → a ≡ a'
    → i ≡ i'
    → b ≡ b'
    → c ≡ c'
    → counters a i b c ≡ counters a' i' b' c'
counters_same ea ei eb ec = rw (ea, ei, eb, ec) refl

count_zones_lem :
    (zs : List Zone) (a i b c : ℕ)
    → count_zones zs (counters a i b c)
      ≡ counters
          (a + length (all_active zs))
          (i + length (all_inactive zs))
          (b + ref_bits (all_active zs))
          (c + ref_bits (all_inactive zs))
unfolding count_zones
count_zones_lem [] a i b c = counters_same (omega arith) (omega arith) (omega arith) (omega arith)
count_zones_lem (z ∷ zs) a i b c =
    let la = length-append z.active_list (all_active zs) in
    let li = length-append z.inactive_list (all_inactive zs) in
    let ra = ref_bits-append z.active_list (all_active zs) in
    let ri = ref_bits-append z.inactive_list (all_inactive zs) in
    count_zones-cons z zs a i b c
    ∙ count_zones_lem zs (a + length z.active_list) (i + length z.inactive_list)
        (b + ref_bits z.active_list) (c + ref_bits z.inactive_list)
    ∙ counters_same (omega (arith, la)) (omega (arith, li)) (omega (arith, ra)) (omega (arith, ri))

pub sys_memstats-report :
    (s : Stats)
    → sys_memstats s ≡ (report s.zones, s.num_active_to_inactive, s.num_inactive_to_free)
unfolding sys_memstats
sys_memstats-report s =
    ap (λ c. (c, s.num_active_to_inactive, s.num_inactive_to_free))
      (count_zones_lem s.zones 0 0 0 0
        ∙ counters_same (omega arith) (omega arith) (omega arith) (omega arith))
