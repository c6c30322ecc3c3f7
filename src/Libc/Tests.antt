-- ===== src/Libc/Tests.antt =====
-- The theorems on the functions of src/libc, on a memory that holds its own addresses.
use swag_os.Base.{ℕ, ◌%◌, ◌≡◌, true, false, arith}
use swag_os.Base.Outcome.{ok}
use swag_os.Libc.{Bytes, memmove}
use swag_os.Libc.Copy.{memmove_copies}
use swag_os.Libc.Numbers.{utoa, itoa}
use swag_os.Libc.Numbers.Print.{Printed, PrintedNegative, read-utoa, read-itoa}

abbrev bytes : Bytes
bytes = λ a. a % 256

memmove_copies_example : memmove bytes 12 10 5 15 ≡ 13
memmove_copies_example = memmove_copies bytes 12 10 5 3 (omega arith)

read-utoa_example : (s : Bytes) × (n : ℕ) × (utoa 300 255 bytes 16 ≡ ok s) × Printed 255 16 s n
read-utoa_example = read-utoa 300 255 14 bytes (omega arith) (omega arith)

read-itoa_example :
    (s : Bytes) × (n : ℕ) × (itoa 300 false true 255 bytes 10 ≡ ok s) × PrintedNegative 255 10 s n
read-itoa_example =
    read-itoa 300 255 false bytes (omega arith) (λ z. omega (arith, z)) (omega arith)
