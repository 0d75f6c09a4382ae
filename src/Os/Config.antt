-- ===== src/Os/Config.antt =====
-- src/os.c: `read_config`, in the build with paging and the MLQ scheduler. `%d` is read as an unsigned
-- conversion to 31 bits. The statics are 0 before; a local that no call wrote makes its use undefined,
-- and so does a text that does not fit its array.
pub mod Plan
use Prim.Native.String.{String, len}
use Prim.Native.String.{◌++◌ as ◌+++◌}
use simple_os_simulator.Prelude.{
  ℕ, zero, suc, ◌+◌, ◌^◌, ◌<◌, ◌≤◌, ◌≡◌, inr, refl, ap, ◌∙◌, arith, Option, none, some, List, [],
  ◌∷◌, ◌++◌, false, map, length, get_or, ◌==◌, ltb, if◌then◌else◌,
}
use simple_os_simulator.Stdio.{
  Stdio, IsStdio, Field, name, num, Below, IsReady, over, more, numbers, numbers_line,
  numbers_line-num, numbers_stop,
}
use simple_os_simulator.Loader.{Ending, returned, undefined, ◌>>=◌, or_exit, initialised}
use simple_os_simulator.Os.Loading.{Entry}

-- The statics that `read_config` sets.
pub record Config : Type 0 where
  pub time_slot : ℕ
  pub num_cpus : ℕ
  pub num_processes : ℕ
  pub memramsz : ℕ
  pub memswpsz : List ℕ
  pub ld_processes : List Entry

module _ (io : Stdio) where
  -- The sizes of the memories, from the next line if it has five numbers; if not, the file is read again
  -- from there.
  unfoldable pub read_sizes : io.File → Ending ((ℕ × List ℕ) × io.File)
  read_sizes f =
      let (line, g) = io.fgets 256 f in
      initialised line >>= λ b.
      let (ns, _) = numbers io 64 5 b in
      returned (
        if length ns == 5
        then (
          (get_or ns 0 0, get_or ns 1 0 ∷ get_or ns 2 0 ∷ get_or ns 3 0 ∷ get_or ns 4 0 ∷ []),
          g,
        )
        else ((16777216, 16777216 ∷ 0 ∷ 0 ∷ 0 ∷ []), f))

  -- `fscanf(file, "%lu %s %lu\n", ...)`: what it stores of a start time, a name and a priority.
  unfoldable pub scan_entry : io.File → (Option ℕ × Option String × Option ℕ) × io.File
  scan_entry f =
      let (start_time, f₁) = io.number 64 f in
      let (proc, f₂) = io.word f₁ in
      let (prio, f₃) = io.number 64 f₂ in
      elim start_time [
        | none ↦ ((none, none, none), f₁)
        | some t ↦ elim proc [
          | none ↦ ((some t, none, none), f₂)
          | some w ↦ elim prio [
            | none ↦ ((some t, some w, none), f₃)
            | some p ↦ ((some t, some w, some p), io.space f₃)
          ]
        ]
      ]

  -- One round of the loop; `start_time` and `prio` are what `malloc` left.
  unfoldable pub read_entry : ℕ → ℕ → io.File → Ending (Entry × io.File)
  read_entry start_time prio f =
      let ((start, proc, level), g) = scan_entry f in
      initialised proc >>= λ w.
      if ltb 88 (len w)
      then undefined
      else returned (
        record {
          path = "input/proc/" +++ w;
          start_time = elim start [ none ↦ start_time | some t ↦ t ];
          prio = elim level [ none ↦ prio | some p ↦ p ];
        },
        g,
      )

  unfoldable pub read_entries : ℕ → (ℕ → ℕ × ℕ) → ℕ → io.File → Ending (List Entry)
  read_entries zero blank i f = returned []
  read_entries (suc n) blank i f = read_entry (blank i).0 (blank i).1 f >>= λ (entry, g).
      read_entries n blank (i + 1) g >>= λ entries. returned (entry ∷ entries)

  -- `read_config` after its first `fscanf`, which read `ns`.
  unfoldable pub read_rest : List ℕ → (ℕ → ℕ × ℕ) → io.File → Ending Config
  read_rest ns blank f = read_sizes f >>= λ ((ram, swp), g).
      read_entries (get_or ns 2 0) blank 0 g >>= λ entries. returned (record {
        time_slot = get_or ns 0 0;
        num_cpus = get_or ns 1 0;
        num_processes = get_or ns 2 0;
        memramsz = ram;
        memswpsz = swp;
        ld_processes = entries;
      })

  unfoldable pub read_config : String → (ℕ → ℕ × ℕ) → Ending Config
  read_config path blank = or_exit (io.fopen path) >>= λ file.
      let (ns, f) = numbers_line io 31 3 file in read_rest ns blank f
