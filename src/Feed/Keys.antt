-- ===== src/Feed/Keys.antt =====
-- cvefeed/cvecache.go: the keys of the cache and the sizes of results.
--
-- `sort.Strings` is an insertion sort, which gives the same list, since equal strings are the same.
-- `unsafe.Sizeof` is 16 for a string and an interface and 24 for a slice, as on 64-bit machines.
use nvdtools.Prelude.{
  ℕ, ◌+◌, ◌*◌, Bool, true, false, Option, none, some, List, [], ◌∷◌, ◌++◌, Bytes, length, join,
  if◌then◌else◌, Ordering, compare_texts, codes, ◌≡◌, refl,
}
use nvdtools.Wfn.Attributes.{Attributes, new_attributes}

abbrev pub is_gt : Ordering → Bool
is_gt Ordering.lt = false
is_gt Ordering.eq = false
is_gt Ordering.gt = true

abbrev pub greater : Bytes → Bytes → Bool
greater s t = is_gt (compare_texts s t)

abbrev pub insert_text : Bytes → List Bytes → List Bytes
insert_text s [] = s ∷ []
insert_text s (t ∷ ts) = if greater s t then t ∷ insert_text s ts else s ∷ t ∷ ts

-- `sort.Strings`
abbrev pub sort : List Bytes → List Bytes
sort [] = []
sort (s ∷ ss) = insert_text s (sort ss)

-- One name in the key.
abbrev pub name_key : Attributes → Bytes
name_key a =
    a.part
    ++ (b'^' ∷ a.vendor
        ++ (b'^' ∷ a.product
            ++ (b'^' ∷ a.version
                ++ (b'^' ∷ a.update
                    ++ (b'^' ∷ a.edition
                        ++ (b'^' ∷ a.sw_edition
                            ++ (b'^' ∷ a.target_sw
                                ++ (b'^' ∷ a.target_hw
                                    ++ (b'^' ∷ a.other ++ (b'^' ∷ a.language))))))))))

abbrev pub name_keys : List (Option Attributes) → List Bytes
name_keys [] = []
name_keys (none ∷ cpes) = name_keys cpes
name_keys (some a ∷ cpes) = name_key a ∷ name_keys cpes

-- `cacheKey`
unfoldable pub cache_key : List (Option Attributes) → Bytes
cache_key cpes = join b'#' (sort (name_keys cpes))

-- The size of a name, in which the source has no line for `TargetSW`.
abbrev pub name_size : Attributes → ℕ
name_size a =
    length a.part
    + length a.vendor
    + length a.product
    + length a.version
    + length a.update
    + length a.edition
    + length a.sw_edition
    + length a.target_hw
    + length a.other
    + length a.language
    + 10 * 16

abbrev pub names_size : List Attributes → ℕ
names_size [] = 0
names_size (a ∷ cpes) = name_size a + names_size cpes

-- A result is the names that an entry matched.
abbrev pub results_size : List (List Attributes) → ℕ
results_size [] = 0
results_size (cpes ∷ results) = 16 + names_size cpes + results_size results

-- `updateResSize`
unfoldable pub res_size : Bytes → List (List Attributes) → ℕ
res_size key results = 16 + length key + 24 + results_size results

-- The text of TargetSW does not count.
target_sw_free :
    res_size [] ((record (new_attributes []) { target_sw = codes "linux_kernel" } ∷ []) ∷ [])
    ≡ res_size [] ((new_attributes [] ∷ []) ∷ [])
unfolding res_size
target_sw_free = refl
