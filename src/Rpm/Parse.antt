-- ===== src/Rpm/Parse.antt =====
-- rpm/parse.go: the parts of a package name, `name-[epoch:]version-release.arch.rpm`.
use nvdtools.Prelude.{
  ℕ, ◌||◌, ◌&&◌, Option, none, some, [], Bytes, codes, leb, ◌+◌, if◌then◌else◌, text_eq, cut_first,
  cut_last, trim_suffix, map,
}
use nvdtools.Rpm.Compare.{Label}

pub record Package : Type 0 where
  pub name : Bytes
  pub label : Label
  pub arch : Bytes

-- The three errors: a part that cannot be found.
pub data ParseError : Type 0 where
  no_arch no_release no_version : ParseError

pub data Result {ℓ} (A : Type ℓ) : Type ℓ where
  ok : A → Result A
  err : ParseError → Result A

infixl 5 ◌>>=◌
abbrev pub ◌>>=◌ {ℓ κ} : {A : Type ℓ} {B : Type κ} → Result A → (A → Result B) → Result B
ok a >>= f = f a
err e >>= f = err e

abbrev or_error {ℓ} : {A : Type ℓ} → Option A → ParseError → Result A
or_error (some a) e = ok a
or_error none e = err e

-- `strings.ToLower` on ASCII text
unfoldable pub lower : ℕ → ℕ
lower c = if leb b'A' c && leb c b'Z' then c + 32 else c

unfoldable pub to_lower : Bytes → Bytes
unfolding lower
to_lower = map lower

-- The names `src` and `noarch` stand for no architecture.
unfoldable pub arch_of : Bytes → Bytes
arch_of a = if text_eq a (codes "src") || text_eq a (codes "noarch") then [] else a

-- The epoch and the version.
abbrev pub epoch_version : Bytes → Bytes × Bytes
epoch_version ver = elim (cut_first b':' ver) [ some (e, v) ↦ (e, v) | none ↦ ([], ver) ]

unfoldable pub parse : Bytes → Result Package
unfolding cut_first cut_last trim_suffix text_eq to_lower arch_of
parse pkg = do
  (nvr, arch) ← or_error (cut_last b'.' (trim_suffix (codes ".rpm") pkg)) no_arch
  (nv, release) ← or_error (cut_last b'-' nvr) no_release
  (name, ver) ← or_error (cut_last b'-' nv) no_version
  let label : Label = record {
    epoch = (epoch_version ver).0;
    version = (epoch_version ver).1;
    release = release;
  }
  ok (record { name = to_lower name; label = label; arch = arch_of arch })
