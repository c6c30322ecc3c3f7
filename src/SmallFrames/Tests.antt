-- ===== src/SmallFrames/Tests.antt =====
-- The search for a 4 KB frame of src/kernel/mem/pmm.c and its release, on one new chunk.
use swag_os.Base.{◌≡◌, refl, ap, ◌⊎◌, [], ◌∷◌, length, length-append, replicate, arith}
use swag_os.Pmm.{uint64_max}
use swag_os.SmallFrames.{HugeChunk, SmallPageManager, search_chunks, check_available_chunked_frame}
use swag_os.SmallFrames.Serve.{IsChunk, no_chunk, one_more, Served, search_chunks_lem}
use swag_os.SmallFrames.Return.{
  none_left, AreUsed, none_used, one_used, AreApart, Returned, try_free-check,
}

abbrev new_chunk : HugeChunk
new_chunk = record { start_address = 0x40000000; use_count = 1; frame_bitmap = 1 ∷ replicate 124 0 }

new-IsChunk : IsChunk new_chunk
new-IsChunk = record { words = refl; inside = omega arith }

search_chunks_lem_example : Served (new_chunk ∷ []) (search_chunks (new_chunk ∷ []))
search_chunks_lem_example = search_chunks_lem (new_chunk ∷ []) (one_more new-IsChunk no_chunk)

abbrev manager : SmallPageManager
manager = record { chunks = new_chunk ∷ []; entry_count = 1 }

new-AreUsed : AreUsed (new_chunk ∷ [])
new-AreUsed =
    one_used (record { chunk = new-IsChunk; start = refl; below = omega arith })
      (λ z. omega (arith, z)) (omega arith) none_used

new-AreApart : AreApart (new_chunk ∷ [])
new-AreApart [] c after a split here = none_left
new-AreApart (b ∷ before) c after a split here =
    absurd (omega (arith, ap length split, length-append before (c ∷ after)))

try_free-check_example :
    (check_available_chunked_frame manager ≡ (manager, uint64_max)) ⊎ Returned manager 8
try_free-check_example =
    try_free-check manager 8 (λ z. omega (arith, z)) (one_more new-IsChunk no_chunk) new-AreUsed
      new-AreApart (omega arith)
