-- ===== src/BufferCache/Tests.antt =====
-- The theorems on src/kernel/fs/buffered_io.c, on a cache as it is at boot and with one buffer in use.
use swag_os.Base.{◌≡◌, refl, true, false, [], ◌∷◌, map, inl, arith}
use swag_os.Base.Outcome.{ok}
use swag_os.BufferCache.Disk.{Drive}
use swag_os.BufferCache.Reads.{IsReading, AreQuiet, no_sector, one_sector, read_all, read_all_lem}
use swag_os.BufferCache.{IoBuf, Cache, put, choose, brelse}
use swag_os.BufferCache.Unique.{IsShared, Chosen, Released, choose_lem, brelse_lem, put-IsShared}

abbrev empty_buffer : IoBuf
empty_buffer = record {
  flags = 0;
  dev = 0;
  blockno = 0;
  lock = record { is_locked = false; owner_tid = 0 };
  refcnt = 0;
  contents = [];
}

abbrev at_boot : Cache
at_boot = λ _. empty_buffer

at_boot-IsShared : IsShared at_boot
at_boot-IsShared = record { first_only = λ i j lt small d n. refl }

choose_lem_example : Chosen at_boot 0 7 (choose at_boot 0 7)
choose_lem_example =
    choose_lem at_boot 0 7 at_boot-IsShared (record { room = λ i small. omega arith })

abbrev one_in_use : Cache
one_in_use = put at_boot 0 (record {
  flags = 2;
  dev = 0;
  blockno = 7;
  lock = record { is_locked = true; owner_tid = 5 };
  refcnt = 1;
  contents = [];
})

one_in_use-IsShared : IsShared one_in_use
one_in_use-IsShared =
    put-IsShared at_boot 0 (one_in_use 0) at_boot-IsShared (λ j lt small d n. absurd (omega arith))
      (λ j lt small d n. refl)

brelse_lem_example : Released one_in_use 0 5 (brelse one_in_use 0 5)
brelse_lem_example =
    brelse_lem one_in_use 0 5 one_in_use-IsShared (omega arith) (λ z. omega (arith, z))
      (omega arith)

abbrev drive : Drive
drive = record { sectors = λ dev n. n ∷ []; disk1 = false; reads = true; request = true }

drive-IsReading : IsReading drive
drive-IsReading = record { reads = refl; request = refl }

at_boot-AreQuiet : AreQuiet drive at_boot
at_boot-AreQuiet i small = record { unused = refl; unlocked = refl; clean = inl refl }

read_all_lem_example :
    (c1 : Cache) × (read_all at_boot drive 5 (2050 ∷ 2051 ∷ 2050 ∷ [])
      ≡ ok (c1, map (drive.sectors 0) (2050 ∷ 2051 ∷ 2050 ∷ [])))
    × AreQuiet drive c1
read_all_lem_example =
    read_all_lem drive at_boot 5 (2050 ∷ 2051 ∷ 2050 ∷ []) drive-IsReading at_boot-AreQuiet
      (one_sector (omega arith) (one_sector (omega arith) (one_sector (omega arith) no_sector)))
