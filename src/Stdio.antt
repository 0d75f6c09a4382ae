-- ===== src/Stdio.antt =====
-- The calls of the C library by which src/loader.c and src/os.c read text, as an interface: an opened
-- file is a value, and a call gives the file as it stands afterwards. `IsStdio` says what the two
-- files rely on, for text that a program or configuration file has.
use Prim.Native.String.{String, len}
use mathlib.Core.List.{append-nil}
use simple_os_simulator.Prelude.{
  ℕ, zero, suc, ◌+◌, ◌^◌, ◌<◌, ◌≤◌, ◌≡◌, ◌⊎◌, refl, ap, sym, subst, arith, Option, none, some, List,
  [], ◌∷◌, ◌++◌, map, ◌==◌, if◌then◌else◌, length,
}

pub record Stdio : Type 1 where
  pub File : Type 0
  -- `fopen` for reading, NULL where there is no such file
  pub fopen : String → Option File
  -- the conversion %s
  pub word : File → Option String × File
  -- an unsigned conversion to so many bits
  pub number : ℕ → File → Option ℕ × File
  -- white space in a format
  pub space : File → File
  -- `fgets` into a buffer of this size: what `sscanf` reads from the buffer; NULL at the end
  pub fgets : ℕ → File → Option File × File

-- What stands in a line.
pub data Field : Type 0 where
  name : String → Field
  num : ℕ → Field

-- The bytes that a line takes at most where its numbers have 64 bits, each field with a blank or the
-- end of the line.
abbrev pub width : List Field → ℕ
width [] = 0
width (name w ∷ l) = len w + 1 + width l
width (num n ∷ l) = 21 + width l

abbrev pub IsLine : List Field → Type 0
IsLine [] = Unit {0}
IsLine (name w ∷ l) = IsLine l
IsLine (num n ∷ l) = (n < 2 ^ 64) × IsLine l

-- Nothing follows, or a line with a field.
pub data IsReady : List (List Field) → Type 0 where
  over : IsReady []
  more : (x : Field) (l : List Field) (ls : List (List Field)) → IsReady ((x ∷ l) ∷ ls)

-- `Shows f lines`: what remains of `f` is the text of these lines, its fields separated by single
-- blanks and its names beginning with a letter; the first line may have been read in part.
pub record IsStdio (io : Stdio) : Type 1 where
  pub Shows : io.File → List (List Field) → Type 0
  pub word-name :
      (f : io.File) (w : String) (l : List Field) (ls : List (List Field))
      → Shows f ((name w ∷ l) ∷ ls)
      → ((io.word f).0 ≡ some w) × Shows (io.word f).1 (l ∷ ls)
  -- a conversion skips white space before the field, and the end of a line
  pub word_next :
      (f : io.File) (w : String) (l : List Field) (ls : List (List Field))
      → Shows f ([] ∷ (name w ∷ l) ∷ ls)
      → ((io.word f).0 ≡ some w) × Shows (io.word f).1 (l ∷ ls)
  pub word_end : (f : io.File) → Shows f [] → ((io.word f).0 ≡ none) × Shows (io.word f).1 []
  pub number-num :
      (bits : ℕ) (f : io.File) (n : ℕ) (l : List Field) (ls : List (List Field))
      → n < 2 ^ bits
      → Shows f ((num n ∷ l) ∷ ls)
      → ((io.number bits f).0 ≡ some n) × Shows (io.number bits f).1 (l ∷ ls)
  pub number_name :
      (bits : ℕ) (f : io.File) (w : String) (l : List Field) (ls : List (List Field))
      → Shows f ((name w ∷ l) ∷ ls)
      → (io.number bits f).0 ≡ none
  pub number_end :
      (bits : ℕ) (f : io.File) → Shows f [] ⊎ Shows f ([] ∷ []) → (io.number bits f).0 ≡ none
  pub space_line :
      (f : io.File) (ls : List (List Field))
      → IsReady ls
      → Shows f ([] ∷ ls)
      → Shows (io.space f) ls
  -- a line that fits the buffer, with its end and the final 0
  pub fgets-line :
      (size : ℕ) (f : io.File) (l : List Field) (ls : List (List Field))
      → IsLine l
      → width l + 2 < size
      → Shows f (l ∷ ls)
      → (b : io.File) × ((io.fgets size f).0 ≡ some b)
        × Shows b (l ∷ [])
        × Shows (io.fgets size f).1 ls

module _ (io : Stdio) where
  -- The conversions of one format that are of one kind, up to the first that fails.
  abbrev pub numbers : ℕ → ℕ → io.File → List ℕ × io.File
  numbers bits zero f = ([], f)
  numbers bits (suc k) f =
      let (r, g) = io.number bits f in
      elim r [ none ↦ ([], g) | some n ↦ let (ns, h) = numbers bits k g in (n ∷ ns, h) ]

  -- A format of `k` such conversions and the end of the line.
  abbrev pub numbers_line : ℕ → ℕ → io.File → List ℕ × io.File
  numbers_line bits k f =
      let (ns, g) = numbers bits k f in (ns, if length ns == k then io.space g else g)

abbrev pub Below : ℕ → List ℕ → Type 0
Below bits [] = Unit {0}
Below bits (n ∷ ns) = (n < 2 ^ bits) × Below bits ns

-- Both on a line that begins with so many numbers.
module _ {io : Stdio} (text : IsStdio io) where
  pub numbers-num :
      (bits : ℕ) (f : io.File) (ns : List ℕ) (l : List Field) (ls : List (List Field))
      → Below bits ns
      → text.Shows f ((map num ns ++ l) ∷ ls)
      → ((numbers io bits (length ns) f).0 ≡ ns)
        × text.Shows (numbers io bits (length ns) f).1 (l ∷ ls)
  numbers-num bits f [] l ls all shows = (refl, shows)
  numbers-num bits f (n ∷ ns) l ls (small, all) shows =
      let (value, rest) = text.number-num bits f n (map num ns ++ l) ls small shows in
      let (values, left) = numbers-num bits (io.number bits f).1 ns l ls all rest in
      rw value (ap (λ ms. n ∷ ms) values, left)

  pub numbers_line-num :
      (bits : ℕ) (f : io.File) (ns : List ℕ) (ls : List (List Field))
      → Below bits ns
      → IsReady ls
      → text.Shows f (map num ns ∷ ls)
      → ((numbers_line io bits (length ns) f).0 ≡ ns)
        × text.Shows (numbers_line io bits (length ns) f).1 ls
  numbers_line-num bits f ns ls all ready shows =
      let whole = subst (λ l. text.Shows f (l ∷ ls)) (sym (append-nil (map num ns))) shows in
      let (values, left) = numbers-num bits f ns [] ls all whole in
      rw values (refl, ground (arith, text.space_line _ ls ready left))

  -- The conversions stop where one fails.
  pub numbers_stop :
      (bits k : ℕ) (f : io.File) (ns : List ℕ) (l : List Field) (ls : List (List Field))
      → Below bits ns
      → length ns ≤ k
      → text.Shows f ((map num ns ++ l) ∷ ls)
      → ((g : io.File) → text.Shows g (l ∷ ls) → (io.number bits g).0 ≡ none)
      → (numbers io bits k f).0 ≡ ns
  numbers_stop bits zero f [] l ls all le shows stop = refl
  numbers_stop bits zero f (n ∷ ns) l ls all le shows stop = absurd (omega (arith, le))
  numbers_stop bits (suc k) f [] l ls all le shows stop = rw (stop f shows, numbers) refl
  numbers_stop bits (suc k) f (n ∷ ns) l ls (small, all) le shows stop =
      let (value, rest) = text.number-num bits f n (map num ns ++ l) ls small shows in
      let values =
        numbers_stop bits k (io.number bits f).1 ns l ls all (omega (arith, le)) rest stop in
      rw (value, numbers) (ap (λ ms. n ∷ ms) values)
