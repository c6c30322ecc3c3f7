-- ===== src/Files/Read.antt =====
-- SYSHANDLER_read of src/kernel/arch/x86_64/syscalls.c: the bytes that it copies.
use swag_os.Base.{
  ℕ, zero, suc, ◌+◌, ◌-◌, ◌%◌, ◌^◌, ◌<◌, ◌≤◌, ◌≡◌, ◌≢◌, refl, ap, ◌∙◌, ◌⊎◌, inl, inr, Bool, true,
  false, not, none, some, ltb, leb, ◌==◌, if◌then◌else◌, lt→ltb, ltb_ge, ltb→lt, Bool-cases, ==_ne,
  arith,
}
use swag_os.Base.Outcome.{Outcome, ok, ◌>>=◌}
use swag_os.Libc.{Bytes}
use swag_os.Ext2.{Calls, Ext2Driver, copy_in}
use swag_os.Ext2.Blocks.{copy_in-inside, copy_in-outside}
use swag_os.Ext2.Directory.{from}
use swag_os.Ext2.File.{path_to_file_size, ext2_read_file}
use swag_os.Files.{
  uint64_max, UserMemory, FileState, file_read_error, cleared, may_access, write_struct,
  read_chunks, clamp, read_file_data, sys_read, end_of_interrupt,
}

-- Every access between two addresses is allowed.
abbrev pub IsOpenRange : UserMemory → ℕ → ℕ → Type 0
IsOpenRange u first last = (a n : ℕ) → first ≤ a → a + n ≤ last → 0 < n → may_access u a n ≡ true

write-allowed :
    (u : UserMemory) (addr : ℕ) (src : Bytes) (size : ℕ)
    → may_access u addr size ≡ true
    → write_struct u addr src size ≡ (true, record u { bytes = copy_in u.bytes addr src size })
unfolding write_struct
write-allowed u addr src size allowed = rw (allowed, write_struct) refl

access-bytes :
    (u : UserMemory) (b : Bytes) (a n : ℕ)
    → may_access (record u { bytes = b }) a n ≡ may_access u a n
unfolding may_access
access-bytes u b a n = refl

abbrev chunk : ℕ → ℕ
chunk n = if ltb n 0x200 then n else 0x200

abbrev chunk_of : Bytes → ℕ → ℕ → Bytes
chunk_of buf num_read n = copy_in cleared 0 (from buf num_read) n

abbrev chunk_written : Bytes → ℕ → ℕ → ℕ → UserMemory → UserMemory
chunk_written buf n num_read dst u = record u {
  bytes = copy_in u.bytes ((dst + num_read) % 2 ^ 64) (chunk_of buf num_read n) n;
}

chunks-done :
    (fuel : ℕ) (buf : Bytes) (to_read num_read dst : ℕ) (u : UserMemory)
    → to_read ≤ num_read
    → read_chunks fuel buf to_read num_read dst u ≡ (u, true)
unfolding read_chunks
chunks-done zero buf to_read num_read dst u le = refl
chunks-done (suc fuel) buf to_read num_read dst u le = rw (ltb_ge num_read to_read le) refl

chunks-step :
    (fuel : ℕ) (buf : Bytes) (to_read num_read dst : ℕ) (u : UserMemory)
    → num_read < to_read
    → may_access u ((dst + num_read) % 2 ^ 64) (chunk (to_read - num_read)) ≡ true
    → read_chunks (suc fuel) buf to_read num_read dst u
      ≡ read_chunks fuel buf to_read
          (num_read + chunk (to_read - num_read))
          dst
          (chunk_written buf (chunk (to_read - num_read)) num_read dst u)
unfolding read_chunks
chunks-step fuel buf to_read num_read dst u lt allowed =
    let n = chunk (to_read - num_read) in
    let w = write-allowed u ((dst + num_read) % 2 ^ 64) (chunk_of buf num_read n) n allowed in
    ap
      (λ b.
        if b
        then (if (write_struct u ((dst + num_read) % 2 ^ 64) (chunk_of buf num_read n) n).0
            then read_chunks fuel buf to_read (num_read + n) dst
                (write_struct u ((dst + num_read) % 2 ^ 64) (chunk_of buf num_read n) n).1
            else (u, false))
        else (u, true))
      (lt→ltb num_read to_read lt)
    ∙ ap (λ r. if r.0 then read_chunks fuel buf to_read (num_read + n) dst r.1 else (u, false)) w

-- What the loop leaves: the bytes from `num_read` on are copied, and nothing else is written.
pub record Copied (buf : Bytes) (to_read num_read dst : ℕ) (u : UserMemory) (r : UserMemory × Bool)
    : Type 0 where
  pub all_written : r.1 ≡ true
  pub content : (j : ℕ) → num_read ≤ j → j < to_read → r.0.bytes (dst + j) ≡ buf j
  pub others : (a : ℕ) → (a < dst + num_read) ⊎ (dst + to_read ≤ a) → r.0.bytes a ≡ u.bytes a

nothing-Copied :
    (buf : Bytes) (to_read num_read dst : ℕ) (u : UserMemory)
    → to_read ≤ num_read
    → Copied buf to_read num_read dst u (u, true)
nothing-Copied buf to_read num_read dst u le = record {
  all_written = refl;
  content = λ j lo hi. absurd (omega (arith, le, lo, hi));
  others = λ a h. refl;
}

chunk-range : (n : ℕ) → 0 < n → (0 < chunk n) × (chunk n ≤ n)
chunk-range n pos = (ground (arith, pos), ground (arith, pos))

chunk-at : (buf : Bytes) (n num_read k : ℕ) → k < n → chunk_of buf num_read n k ≡ buf (num_read + k)
chunk-at buf n num_read k lt =
    ap (chunk_of buf num_read n) (omega arith) ∙ copy_in-inside cleared 0 (from buf num_read) n k lt

written-Copied :
    (buf : Bytes) (to_read num_read n dst : ℕ) (u : UserMemory) (r : UserMemory × Bool)
    → dst + to_read ≤ 2 ^ 64
    → num_read + n ≤ to_read
    → 0 < n
    → Copied buf to_read (num_read + n) dst (chunk_written buf n num_read dst u) r
    → Copied buf to_read num_read dst u r
written-Copied buf to_read num_read n dst u r fits le pos c =
    let place : (dst + num_read) % 2 ^ 64 ≡ dst + num_read = omega (arith, fits, le, pos) in
    let src = chunk_of buf num_read n in
    let now : (a : ℕ)
        → (chunk_written buf n num_read dst u).bytes a ≡ copy_in u.bytes (dst + num_read) src n a =
      λ a. ap (λ x. copy_in u.bytes x src n a) place in
    record {
      all_written = c.all_written;
      content = λ j lo hi. elim (Bool-cases (ltb j (num_read + n))) [
        | inl t ↦
            let small = ltb→lt j (num_read + n) t in
            let k = j - num_read in
            let inside : k < n = omega (arith, lo, small) in
            c.others (dst + j) (inl (omega (arith, small)))
            ∙ now (dst + j)
            ∙ ap (copy_in u.bytes (dst + num_read) src n) (omega (arith, lo))
            ∙ copy_in-inside u.bytes (dst + num_read) src n k inside
            ∙ chunk-at buf n num_read k inside
            ∙ ap buf (omega (arith, lo))
        | inr t ↦ c.content j (ground (arith, t)) hi
      ];
      others = λ a h.
          c.others a (ground (arith, h, le))
          ∙ now a
          ∙ copy_in-outside u.bytes (dst + num_read) src n a (ground (arith, h, le));
    }

read_chunks_lem :
    (fuel : ℕ) (buf : Bytes) (to_read num_read dst : ℕ) (u : UserMemory)
    → dst + to_read ≤ 2 ^ 64
    → to_read ≤ num_read + fuel
    → IsOpenRange u dst (dst + to_read)
    → Copied buf to_read num_read dst u (read_chunks fuel buf to_read num_read dst u)
read_chunks_lem zero buf to_read num_read dst u fits enough open_range =
    rw (chunks-done 0 buf to_read num_read dst u (omega (arith, enough)))
      (nothing-Copied buf to_read num_read dst u (omega (arith, enough)))
read_chunks_lem (suc fuel) buf to_read num_read dst u fits enough open_range =
    elim (Bool-cases (ltb num_read to_read)) [
      | inr t ↦
          let le : to_read ≤ num_read = ground (arith, t) in
          rw (chunks-done (suc fuel) buf to_read num_read dst u le)
            (nothing-Copied buf to_read num_read dst u le)
      | inl t ↦
          let lt = ltb→lt num_read to_read t in
          let n = chunk (to_read - num_read) in
          let (pos, le) = chunk-range (to_read - num_read) (omega (arith, lt)) in
          let place : (dst + num_read) % 2 ^ 64 ≡ dst + num_read = omega (arith, fits, lt) in
          let allowed =
            ap (λ x. may_access u x n) place
            ∙ open_range (dst + num_read) n (omega arith) (omega (arith, lt, le)) pos in
          let u1 = chunk_written buf n num_read dst u in
          let next_range : IsOpenRange u1 dst (dst + to_read) = λ a k lo hi some_k.
            access-bytes u (copy_in u.bytes ((dst + num_read) % 2 ^ 64) (chunk_of buf num_read n) n)
              a k
            ∙ open_range a k lo hi some_k in
          rw (chunks-step fuel buf to_read num_read dst u lt allowed) (
            written-Copied buf to_read num_read n dst u
              (read_chunks fuel buf to_read (num_read + n) dst u1) fits (omega (arith, lt, le)) pos
              (read_chunks_lem fuel buf to_read (num_read + n) dst u1 fits
                (omega (arith, enough, pos)) next_range))
    ]

abbrev chunks : Bytes → ℕ → ℕ → UserMemory → UserMemory × Bool
chunks buf to_read dst u = read_chunks (suc to_read) buf to_read 0 dst u

data-read :
    (e : Calls) (d : Ext2Driver) (fuel : ℕ) (s : FileState) (path buf : Bytes) (to_read dst : ℕ)
    → ext2_read_file e d fuel path ≡ ok (some buf)
    → (chunks buf to_read dst s.memory).1 ≡ true
    → read_file_data e d fuel s path to_read dst
      ≡ ok (record s { memory = (chunks buf to_read dst s.memory).0 }, 0)
unfolding read_file_data
data-read e d fuel s path buf to_read dst reads written =
    ap
      (λ o. o >>= λ r. elim r [
        | none ↦ ok (record s { errno = file_read_error }, uint64_max)
        | some b ↦ ok (
          record s { memory = (chunks b to_read dst s.memory).0 },
          if (chunks b to_read dst s.memory).1 then 0 else uint64_max,
        )
      ])
      reads
    ∙ ap
        (λ (b : Bool).
          ok (
            record s { memory = (chunks buf to_read dst s.memory).0 },
            if b then 0 else uint64_max,
          ))
        written

read-known :
    (e : Calls) (d : Ext2Driver) (fuel : ℕ) (s : FileState) (rsi rdx rcx r8 file_size : ℕ)
    → (s.fd rsi).in_use ≡ true
    → path_to_file_size e d fuel (s.fd rsi).path ≡ ok file_size
    → file_size ≢ uint64_max
    → sys_read e d fuel s rsi rdx rcx r8
      ≡ read_file_data e d fuel (end_of_interrupt s) (s.fd rsi).path (clamp file_size r8 rcx) rdx
unfolding sys_read
read-known e d fuel s rsi rdx rcx r8 file_size used size known =
    let s1 = end_of_interrupt s in
    let path = (s.fd rsi).path in
    let go : ℕ → Outcome (FileState × ℕ) = λ n.
      if n == uint64_max
      then ok (record s1 { errno = file_read_error }, uint64_max)
      else read_file_data e d fuel s1 path (clamp n r8 rcx) rdx in
    ap (λ b. if not b then ok (s, uint64_max) else (path_to_file_size e d fuel path >>= go)) used
    ∙ ap (λ o. o >>= go) size
    ∙ ap
        (λ b.
          if b
          then ok (record s1 { errno = file_read_error }, uint64_max)
          else read_file_data e d fuel s1 path (clamp file_size r8 rcx) rdx)
        (==_ne file_size uint64_max known)

read-copies :
    (e : Calls) (d : Ext2Driver) (fuel : ℕ) (s : FileState) (rsi rdx rcx r8 file_size : ℕ)
    (buf : Bytes)
    → (s.fd rsi).in_use ≡ true
    → path_to_file_size e d fuel (s.fd rsi).path ≡ ok file_size
    → file_size ≢ uint64_max
    → ext2_read_file e d fuel (s.fd rsi).path ≡ ok (some buf)
    → rdx + clamp file_size r8 rcx ≤ 2 ^ 64
    → IsOpenRange s.memory rdx (rdx + clamp file_size r8 rcx)
    → (s1 : FileState) × (sys_read e d fuel s rsi rdx rcx r8 ≡ ok (s1, 0))
      × Copied buf (clamp file_size r8 rcx) 0 rdx s.memory (s1.memory, true)
read-copies e d fuel s rsi rdx rcx r8 file_size buf used size known reads fits open_range =
    let n = clamp file_size r8 rcx in
    let c = read_chunks_lem (suc n) buf n 0 rdx s.memory fits (omega arith) open_range in
    let after = chunks buf n rdx s.memory in
    (
      record (end_of_interrupt s) { memory = after.0 },
      read-known e d fuel s rsi rdx rcx r8 file_size used size known
          ∙ data-read e d fuel (end_of_interrupt s) (s.fd rsi).path buf n rdx reads c.all_written,
      record { all_written = refl; content = c.content; others = c.others },
    )

-- The smaller one of the count that is asked for and what the file has behind an offset.
abbrev pub left_over : ℕ → ℕ → ℕ → ℕ
left_over file_size offset count =
    if leb count (file_size - offset) then count else file_size - offset

clamp_lem :
    (file_size r8 rcx : ℕ)
    → file_size < 2 ^ 64
    → r8 ≤ file_size
    → r8 + rcx < 2 ^ 64
    → clamp file_size r8 rcx ≡ left_over file_size r8 rcx
unfolding clamp
clamp_lem file_size r8 rcx bound behind whole =
    let sum : (r8 + rcx) % 2 ^ 64 ≡ r8 + rcx = omega (arith, whole) in
    ground (arith, sum, bound, behind)

-- SYSHANDLER_read of a descriptor in use, whose file has a known size below 2 ^ 64 - 1 and is read, with an
-- offset that is not behind the end of the file and whose sum with the count does not wrap, into memory
-- that the thread may access, returns 0: the count is the smaller one of what was asked for and what the
-- file has behind the offset, and that many bytes from the start of the file, whatever the offset, are
-- copied to the destination; no other byte of the memory changes.
pub sys_read_lem :
    (e : Calls) (d : Ext2Driver) (fuel : ℕ) (s : FileState) (rsi rdx rcx r8 file_size : ℕ)
    (buf : Bytes)
    → (s.fd rsi).in_use ≡ true
    → path_to_file_size e d fuel (s.fd rsi).path ≡ ok file_size
    → file_size < uint64_max
    → ext2_read_file e d fuel (s.fd rsi).path ≡ ok (some buf)
    → r8 ≤ file_size
    → r8 + rcx < 2 ^ 64
    → rdx + left_over file_size r8 rcx ≤ 2 ^ 64
    → IsOpenRange s.memory rdx (rdx + left_over file_size r8 rcx)
    → (s1 : FileState) × (sys_read e d fuel s rsi rdx rcx r8 ≡ ok (s1, 0))
      × Copied buf (left_over file_size r8 rcx) 0 rdx s.memory (s1.memory, true)
sys_read_lem e d fuel s rsi rdx rcx r8 file_size buf used size known reads behind whole fits
      open_range =
    let same = clamp_lem file_size r8 rcx (omega (arith, known)) behind whole in
    let (s1, runs, copied) =
      read-copies e d fuel s rsi rdx rcx r8 file_size buf used size (λ z. omega (arith, z, known))
        reads (omega (arith, same, fits)) (rw same open_range) in
    (s1, runs, rw same at copied)
