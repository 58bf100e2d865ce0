-- ===== src/Tests/Model.antt =====
-- The theorems on the model and the headers at concrete inputs.
use dach.Base.{ℕ, ◌+◌, ◌≤◌, ◌<◌, ◌≡◌, arith, zeroed, ok, err, assertion, put, ◌>>=◌}
use dach.Header.{header_new, new_blank, pack, unpack, write_hdr_u32, read_hdr_u32}
use dach.Header.RoundTrip.{unpack-pack, read_hdr_u32-write_hdr_u32}
use dach.Ppm0.{Ppm0, find_sym, update}
use dach.Ppm0.Inv.{IsValid, freq_of}
use dach.Ppm0.Init.{new-IsValid}
use dach.Ppm0.Find.{IsFound, find_sym-IsFound}
use dach.Ppm0.Update.{Updated, update-Updated}

-- The model that the constructor returns.
abbrev started : Ppm0
started = new-IsValid.0

started-IsValid : IsValid 257 started
started-IsValid = new-IsValid.2

update-Updated_example :
    Updated
      (put started.freq (started.sym_to_chr 98) (freq_of started 98 + 1))
      258
      (update started 98)
update-Updated_example = update-Updated 98 started-IsValid (omega arith) (omega arith) (omega arith)

find_sym-IsFound_example :
    (100 < 257 → (s : ℕ) × (find_sym started 100 ≡ ok s) × IsFound started 100 s)
    × (257 ≤ 100 → find_sym started 100 ≡ err assertion)
find_sym-IsFound_example = find_sym-IsFound started-IsValid 100

unpack-pack_example :
    (pack (header_new 65536 7 1) zeroed >>= unpack new_blank)
    ≡ ok (record (header_new 65536 7 1) { model = 0 })
unpack-pack_example =
    unpack-pack (header_new 65536 7 1) new_blank zeroed (omega arith) (omega arith)

read_hdr_u32-write_hdr_u32_example :
    (write_hdr_u32 zeroed 70000 >>= λ h. read_hdr_u32 h 0) ≡ ok 70000
read_hdr_u32-write_hdr_u32_example = read_hdr_u32-write_hdr_u32 zeroed 70000 0 (omega arith)
