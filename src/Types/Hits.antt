-- ===== src/Types/Hits.antt =====
-- `HitPos` and `DocInvert::GetHits` of src/looka_types.hpp: the hits in the memory of an entry.
use looka.Common.{ℕ, zero, suc, ◌+◌, List, [], ◌∷◌, if◌then◌else◌, ltb, get_elem?, length}
use looka.Common.Bytes.{Bytes}
use looka.Common.Result.{Result, ok, stuck, ◌>>=◌, or_fault}
use looka.Types.{DocInvert}
use looka.Words.{slice}

-- A hit with the `count` positions of its flexible array.
pub record HitPos : Type 0 where
  pub field : ℕ
  pub pos : Bytes

-- What the pointer `(char*)hits + cur_size` points at.
unfoldable pub hit_at : Bytes → ℕ → Result HitPos
unfolding slice
hit_at mem cur_size = do
  field ← or_fault (get_elem? mem cur_size)
  count ← or_fault (get_elem? mem (suc cur_size))
  pos ← or_fault (slice mem (suc (suc cur_size)) count)
  ok (record { field = field; pos = pos })

-- The loop of `GetHits`, with fuel; `h` has the hits that its pointers point at.
unfoldable pub get_hits_loop : ℕ → Bytes → ℕ → ℕ → Result (List HitPos)
unfolding hit_at
get_hits_loop zero mem size cur_size = stuck
get_hits_loop (suc n) mem size cur_size =
    let more = (do
      hit ← hit_at mem cur_size
      h ← get_hits_loop n mem size (cur_size + 2 + length hit.pos)
      ok (hit ∷ h)) in
    if ltb cur_size size then more else ok []

-- `GetHits`: a round moves on by two bytes at least.
unfoldable pub get_hits : DocInvert → Result (List HitPos)
unfolding get_hits_loop
get_hits d = get_hits_loop (suc d.hits_size) d.hits d.hits_size 0
