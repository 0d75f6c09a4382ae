-- ===== src/Tests/Files.antt =====
-- Files as the lines that they have, for the tests of src/loader.c and of the configuration.
use Prim.Native.String.{String}
use text.Mathlib.Text.{◌==◌}
use simple_os_simulator.Prelude.{
  ℕ, ◌≡◌, inl, inr, refl, Option, none, some, List, [], ◌∷◌, if◌then◌else◌,
}
use simple_os_simulator.Stdio.{Stdio, IsStdio, Field, name, num, IsReady}

abbrev pub Lines : Type 0
Lines = List (List Field)

abbrev read_word : Lines → Option String × Lines
read_word [] = (none, [])
read_word ([] ∷ ls) = read_word ls
read_word ((name w ∷ l) ∷ ls) = (some w, l ∷ ls)
read_word ((num n ∷ l) ∷ ls) = (none, (num n ∷ l) ∷ ls)

abbrev read_number : Lines → Option ℕ × Lines
read_number [] = (none, [])
read_number ([] ∷ ls) = read_number ls
read_number ((name w ∷ l) ∷ ls) = (none, (name w ∷ l) ∷ ls)
read_number ((num n ∷ l) ∷ ls) = (some n, l ∷ ls)

abbrev skip_space : Lines → Lines
skip_space [] = []
skip_space ([] ∷ ls) = skip_space ls
skip_space ((x ∷ l) ∷ ls) = (x ∷ l) ∷ ls

abbrev read_line : Lines → Option Lines × Lines
read_line [] = (none, [])
read_line (l ∷ ls) = (some (l ∷ []), ls)

abbrev open_file : List (String × Lines) → String → Option Lines
open_file [] path = none
open_file ((p, lines) ∷ all) path = if p == path then some lines else open_file all path

-- The files there are.
abbrev pub files : List (String × Lines) → Stdio
files all = record {
  File = Lines;
  fopen = open_file all;
  word = read_word;
  number = λ bits. read_number;
  space = skip_space;
  fgets = λ size. read_line;
}

abbrev pub files_text : (all : List (String × Lines)) → IsStdio (files all)
files_text all = record {
  Shows = λ f ls. f ≡ ls;
  word-name = λ f w l ls e. rw e (refl, refl);
  word_next = λ f w l ls e. rw e (refl, refl);
  word_end = λ f e. rw e (refl, refl);
  number-num = λ bits f n l ls lt e. rw e (refl, refl);
  number_name = λ bits f w l ls e. rw e refl;
  number_end = λ bits f h. elim h [ inl e ↦ rw e refl | inr e ↦ rw e refl ];
  space_line = λ f ls ready e. rw e (kept ls ready);
  fgets-line = λ size f l ls small fit e. rw e (l ∷ [], refl, refl, refl);
}
  where
    kept : (ls : Lines) → IsReady ls → skip_space ls ≡ ls
    kept [] ready = refl
    kept ([] ∷ ls) ready = elim ready [ ]
    kept ((x ∷ l) ∷ ls) ready = refl
