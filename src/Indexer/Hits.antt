-- ===== src/Indexer/Hits.antt =====
-- The hits of an entry, read back by `GetHits`.
use looka.Common.{
  ℕ, zero, suc, ◌+◌, ◌%◌, ◌<◌, ◌≤◌, List, [], ◌∷◌, ◌++◌, some, map, length, take, get_elem?, ◌≡◌,
  refl, ap, sym, ◌∙◌, arith, length-append, lt→ltb,
}
use mathlib.Core.List.{append_assoc}
use looka.Common.Bytes.{Bytes}
use looka.Common.Result.{ok}
use looka.Indexer.{FieldHits, positions, write_hits, make_invert}
use looka.Inverter.Simple.{simple_get_keys}
use looka.Types.Hits.{HitPos, hit_at, get_hits_loop, get_hits}
use looka.Words.{slice, slice-append}

abbrev pub hit_of : FieldHits → ℕ → HitPos
hit_of hits f = record { field = f; pos = positions f hits }

get_elem?-append :
    (before : Bytes) (c : ℕ) (behind : Bytes)
    → get_elem? (before ++ (c ∷ behind)) (length before) ≡ some c
get_elem?-append [] c behind = refl
get_elem?-append (x ∷ before) c behind = get_elem?-append before c behind

get_elem?-append_second :
    (before : Bytes) (b c : ℕ) (behind : Bytes)
    → get_elem? (before ++ (b ∷ c ∷ behind)) (suc (length before)) ≡ some c
get_elem?-append_second [] b c behind = refl
get_elem?-append_second (x ∷ before) b c behind = get_elem?-append_second before b c behind

hit_at-append :
    (before : Bytes) (f : ℕ) (pos behind : Bytes)
    → hit_at (before ++ (f ∷ length pos ∷ (pos ++ behind))) (length before)
      ≡ ok (record { field = f; pos = pos })
unfolding hit_at
hit_at-append before f pos behind =
    let here : slice (before ++ (f ∷ length pos ∷ (pos ++ behind))) (suc (suc (length before)))
          (length pos)
        ≡ some pos =
      ap (λ mem. slice mem (suc (suc (length before))) (length pos))
        (sym (append_assoc before (f ∷ length pos ∷ []) (pos ++ behind)))
      ∙ slice-append (before ++ (f ∷ length pos ∷ [])) pos behind (suc (suc (length before)))
          (length pos) (omega (arith, length-append before (f ∷ length pos ∷ []))) refl in
    rw
      (
        get_elem?-append before f (length pos ∷ (pos ++ behind)),
        get_elem?-append_second before f (length pos) (pos ++ behind),
        here,
      )
      refl

module _ (n : ℕ) (mem : Bytes) (size cur_size : ℕ) where
  get_hits_loop_end : size ≤ cur_size → get_hits_loop (suc n) mem size cur_size ≡ ok []
  unfolding get_hits_loop
  get_hits_loop_end h = ground (arith, h)

  get_hits_loop_step :
      (hit : HitPos) (rest : List HitPos)
      → cur_size < size
      → hit_at mem cur_size ≡ ok hit
      → get_hits_loop n mem size (cur_size + 2 + length hit.pos) ≡ ok rest
      → get_hits_loop (suc n) mem size cur_size ≡ ok (hit ∷ rest)
  unfolding get_hits_loop
  get_hits_loop_step hit rest more here later = rw (lt→ltb cur_size size more, here, later) refl

write_hits_cons :
    (f : ℕ) (fs : List ℕ) (hits : FieldHits)
    → length (write_hits (f ∷ fs) hits) < 256
    → write_hits (f ∷ fs) hits
      ≡ f ∷ length (positions f hits) ∷ (positions f hits ++ write_hits fs hits)
unfolding write_hits
write_hits_cons f fs hits few =
    let fits : length (positions f hits) % 256 ≡ length (positions f hits) =
      omega (arith, length-append (positions f hits) (write_hits fs hits)) in
    ap (λ (k : ℕ). f ∷ k ∷ (positions f hits ++ write_hits fs hits)) fits

get_hits_loop-write_hits :
    (n : ℕ) (hits : FieldHits) (fs : List ℕ) (before behind mem : Bytes) (size cur_size : ℕ)
    → mem ≡ before ++ (write_hits fs hits ++ behind)
    → size ≡ length before + length (write_hits fs hits)
    → cur_size ≡ length before
    → length (write_hits fs hits) < n
    → length (write_hits fs hits) < 256
    → get_hits_loop n mem size cur_size ≡ ok (map (hit_of hits) fs)
get_hits_loop-write_hits zero hits fs before behind mem size cur_size m s c fuel few =
    absurd (omega arith)
get_hits_loop-write_hits (suc n) hits [] before behind mem size cur_size m s c fuel few =
    get_hits_loop_end n mem size cur_size (unfold write_hits in omega arith)
get_hits_loop-write_hits (suc n) hits (f ∷ fs) before behind mem size cur_size m s c fuel few =
    let p = positions f hits in
    let rest = write_hits fs hits in
    let head = f ∷ length p ∷ p in
    let whole : write_hits (f ∷ fs) hits ≡ head ++ rest = write_hits_cons f fs hits few in
    let sizes : length (write_hits (f ∷ fs) hits) ≡ 2 + length p + length rest =
      ap length whole ∙ omega (arith, length-append p rest) in
    get_hits_loop_step n mem size cur_size (hit_of hits f) (map (hit_of hits) fs) (omega arith)
      (rw (m, c, whole, append_assoc p rest behind) (hit_at-append before f p (rest ++ behind)))
      (get_hits_loop-write_hits n hits fs (before ++ head) behind mem size (cur_size + 2 + length p)
        (m
          ∙ rw (whole, append_assoc p rest behind)
              (sym (append_assoc before head (rest ++ behind))))
        (omega (arith, length-append before head)) (omega (arith, length-append before head))
        (omega arith) (omega arith))

-- `GetHits` on the entry that `ProcessDoc` makes returns the hits of each field in turn, with its
-- positions, if these take fewer than 256 bytes.
pub get_hits-make_invert :
    (junk : Bytes) (ldocid : ℕ) (hits : FieldHits)
    → length (write_hits (simple_get_keys hits []).1 hits) < 256
    → get_hits (make_invert junk ldocid hits) ≡ ok (map (hit_of hits) (simple_get_keys hits []).1)
unfolding get_hits make_invert
get_hits-make_invert junk ldocid hits few =
    let bytes = write_hits (simple_get_keys hits []).1 hits in
    let fits : length bytes % 256 ≡ length bytes = omega arith in
    get_hits_loop-write_hits (suc (make_invert junk ldocid hits).hits_size) hits
      (simple_get_keys hits []).1 [] (take 3 junk) _ _ 0 refl (fits ∙ omega arith) refl
      (omega (arith, fits)) few
