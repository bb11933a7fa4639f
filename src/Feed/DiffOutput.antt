-- ===== src/Feed/DiffOutput.antt =====
-- cvefeed/diff.go: how the differences of two feeds are written. What panics is `none`.
use nvdtools.Prelude.{
  ℕ, zero, suc, ◌+◌, ◌/◌, ◌%◌, Bool, Option, none, some, List, [], ◌∷◌, Bytes, ◌==◌, if◌then◌else◌,
  length, set, ltb, text_eq,
}
use nvdtools.Feed.Diff.{
  Impact, CveItem, Vuln, nvd_vuln, other, Entries, lookup, english_description, DiffEntry,
  DiffStats, stats,
}

-- Whether a bit of a chunk is set, for the shifts 0 and 1.
abbrev pub has_bit : ℕ → ℕ → Bool
has_bit bits zero = bits % 2 == 1
has_bit bits (suc i) = has_bit (bits / 2) i

-- `bits.OnesCount32`, for the two bits that there are.
abbrev pub ones_count : ℕ → ℕ
ones_count bits = (if has_bit bits 0 then 1 else 0) + (if has_bit bits 1 then 1 else 0)

-- What `diffDetails` gives for a chunk: the text of the description, or the impact.
pub data Details : Type 0 where
  text_details : Bytes → Details
  impact_details : Option Impact → Details

abbrev pub as_description : Option Bytes → Option Details
as_description none = none
as_description (some text) = some (text_details text)

unfoldable pub diff_details : CveItem → ℕ → Option Details
unfolding english_description
diff_details s zero = as_description (english_description s)
diff_details s (suc i) = some (impact_details s.impact)

-- A chunk as it is written: its kind, by its shift, and the details of either feed.
abbrev pub Chunk : Type 0
Chunk = ℕ × Details × Details

abbrev pub put_chunk :
    ℕ → Option Details → Option Details → List (Option Chunk) → Option (List (Option Chunk))
put_chunk i none y outputs = none
put_chunk i (some x) none outputs = none
put_chunk i (some x) (some y) outputs =
    if ltb i (length outputs) then some (set outputs i (some (i, x, y))) else none

-- `outputs[i] = bag{...}`
abbrev pub write_at :
    CveItem → CveItem → ℕ → ℕ → Option (List (Option Chunk)) → Option (List (Option Chunk))
unfolding diff_details
write_at a b bits i none = none
write_at a b bits i (some outputs) =
    if has_bit bits i
    then put_chunk i (diff_details a i) (diff_details b i) outputs
    else some outputs

abbrev pub make : ℕ → List (Option Chunk)
make zero = []
make (suc n) = none ∷ make n

unfoldable pub write_chunks : CveItem → CveItem → ℕ → Option (List (Option Chunk))
unfolding diff_details
write_chunks a b bits = write_at a b bits 1 (write_at a b bits 0 (some (make (ones_count bits))))

abbrev pub write_vulns : Option Vuln → Option Vuln → ℕ → Option (List (Option Chunk))
write_vulns (some (nvd_vuln a)) (some (nvd_vuln b)) bits = write_chunks a b bits
write_vulns (some (nvd_vuln a)) (some other) bits = none
write_vulns (some (nvd_vuln a)) none bits = none
write_vulns (some other) b bits = none
write_vulns none b bits = none

-- `genEntryDiffOutput`
unfoldable pub gen_entry_diff_output : Entries → Entries → DiffEntry → Option (List (Option Chunk))
unfolding write_chunks text_eq
gen_entry_diff_output a b entry = write_vulns (lookup entry.id a) (lookup entry.id b) entry.bits

abbrev pub add_output :
    Bytes
    → Option (List (Option Chunk))
    → Option (List (Bytes × List (Option Chunk)))
    → Option (List (Bytes × List (Option Chunk)))
add_output id none rest = none
add_output id (some o) none = none
add_output id (some o) (some rest) = some ((id, o) ∷ rest)

-- `MarshalJSON`: the id and the chunks of each entry.
unfoldable pub differences :
    Entries → Entries → List DiffEntry → Option (List (Bytes × List (Option Chunk)))
unfolding gen_entry_diff_output
differences a b [] = some []
differences a b (e ∷ es) = add_output e.id (gen_entry_diff_output a b e) (differences a b es)

abbrev pub differences_of :
    Entries → Entries → Option DiffStats → Option (List (Bytes × List (Option Chunk)))
differences_of a b none = none
differences_of a b (some s) = differences a b s.entries

-- `Diff`, and `MarshalJSON` of what it returns.
unfoldable pub marshal_diff : Entries → Entries → Option (List (Bytes × List (Option Chunk)))
unfolding stats differences
marshal_diff a b = differences_of a b (stats a b)
