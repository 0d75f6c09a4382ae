-- ===== src/Os/Config/Plan.antt =====
-- A configuration file of src/input as it is written, and what `read_config` of src/os.c makes of it.
use Prim.Native.String.{String, len}
use Prim.Native.String.{◌++◌ as ◌+++◌}
use simple_os_simulator.Prelude.{
  ℕ, ◌+◌, ◌^◌, ◌<◌, ◌≤◌, ◌≡◌, inr, refl, ap, ◌∙◌, arith, Option, none, some, List, [], ◌∷◌, ◌++◌,
  false, map, length, ltb,
}
use simple_os_simulator.Stdio.{
  Stdio, IsStdio, Field, name, num, Below, IsReady, over, more, numbers_line, numbers_line-num,
  numbers_stop,
}
use simple_os_simulator.Loader.{returned}
use simple_os_simulator.Os.Loading.{Entry}
use simple_os_simulator.Os.Config.{
  Config, read_sizes, scan_entry, read_entry, read_entries, read_rest, read_config,
}

-- A configuration as it is written: the line of the sizes may be missing.
pub record Plan : Type 0 where
  pub time_slot : ℕ
  pub num_cpus : ℕ
  pub sizes : Option (ℕ × ℕ × ℕ × ℕ × ℕ)
  pub runs : List (ℕ × String × ℕ)

abbrev run_line : ℕ × String × ℕ → List Field
run_line (t, w, p) = num t ∷ name w ∷ num p ∷ []

abbrev size_line : Option (ℕ × ℕ × ℕ × ℕ × ℕ) → List (List Field)
size_line none = []
size_line (some (a, b, c, d, e)) = map num (a ∷ b ∷ c ∷ d ∷ e ∷ []) ∷ []

abbrev pub config_text : Plan → List (List Field)
config_text plan =
    map num (plan.time_slot ∷ plan.num_cpus ∷ length plan.runs ∷ [])
    ∷ (size_line plan.sizes ++ map run_line plan.runs)

abbrev pub entry_of : ℕ × String × ℕ → Entry
entry_of (t, w, p) = record { path = "input/proc/" +++ w; start_time = t; prio = p }

-- What it means.
abbrev pub config_of : Plan → Config
config_of plan = record {
  time_slot = plan.time_slot;
  num_cpus = plan.num_cpus;
  num_processes = length plan.runs;
  memramsz = elim plan.sizes [ none ↦ 16777216 | some (a, b, c, d, e) ↦ a ];
  memswpsz = elim plan.sizes [
    | none ↦ 16777216 ∷ 0 ∷ 0 ∷ 0 ∷ []
    | some (a, b, c, d, e) ↦ b ∷ c ∷ d ∷ e ∷ []
  ];
  ld_processes = map entry_of plan.runs;
}

abbrev RunsFit : List (ℕ × String × ℕ) → Type 0
RunsFit [] = Unit {0}
RunsFit ((t, w, p) ∷ runs) = ((t < 2 ^ 64) × (len w ≤ 88) × (p < 2 ^ 64)) × RunsFit runs

-- Without a line of sizes there is a process.
abbrev SizesFit : Plan → Type 0
SizesFit plan = elim plan.sizes [
  | none ↦ 0 < length plan.runs
  | some (a, b, c, d, e) ↦ Below 64 (a ∷ b ∷ c ∷ d ∷ e ∷ [])
]

pub record IsPlan (plan : Plan) : Type 0 where
  pub time_slot : plan.time_slot < 2 ^ 31
  pub num_cpus : plan.num_cpus < 2 ^ 31
  pub num_processes : length plan.runs < 2 ^ 31
  pub sizes : SizesFit plan
  pub runs : RunsFit plan.runs

read_scanned :
    (io : Stdio) (t : ℕ) (w : String) (p a b : ℕ) (f g : io.File)
    → len w ≤ 88
    → scan_entry io f ≡ ((some t, some w, some p), g)
    → read_entry io a b f ≡ returned (entry_of (t, w, p), g)
unfolding read_entry
read_scanned io t w p a b f g fits scan =
    let short : ltb 88 (len w) ≡ false = ground (arith, fits) in rw (scan, short) refl

module _ {io : Stdio} (text : IsStdio io) where
  read_entry-run :
      (t : ℕ) (w : String) (p a b : ℕ) (f : io.File) (ls : List (List Field))
      → t < 2 ^ 64
      → len w ≤ 88
      → p < 2 ^ 64
      → IsReady ls
      → text.Shows f (run_line (t, w, p) ∷ ls)
      → (g : io.File) × (read_entry io a b f ≡ returned (entry_of (t, w, p), g)) × text.Shows g ls
  unfolding scan_entry
  read_entry-run t w p a b f ls small fits low ready shows =
      let (start, rest) = text.number-num 64 f t _ ls small shows in
      let (word, rest') = text.word-name _ w _ ls rest in
      let (prio, rest'') = text.number-num 64 _ p [] ls low rest' in
      let g = io.space (io.number 64 (io.word (io.number 64 f).1).1).1 in
      let scan : scan_entry io f ≡ ((some t, some w, some p), g) =
        rw (scan_entry, start, word, prio) refl in
      (g, read_scanned io t w p a b f g fits scan, text.space_line _ ls ready rest'')

  read_entries-runs :
      (runs : List (ℕ × String × ℕ)) (blank : ℕ → ℕ × ℕ) (i : ℕ) (f : io.File)
      → RunsFit runs
      → text.Shows f (map run_line runs)
      → read_entries io (length runs) blank i f ≡ returned (map entry_of runs)
  unfolding read_entries
  read_entries-runs [] blank i f fit shows = refl
  read_entries-runs ((t, w, p) ∷ runs) blank i f ((small, fits, low), fit) shows =
      let (g, reads, left) =
        read_entry-run t w p (blank i).0 (blank i).1 f (map run_line runs) small fits low
          (ready runs) shows in
      rw (reads, read_entries-runs runs blank (i + 1) g fit left) refl
    where
      ready : (runs : List (ℕ × String × ℕ)) → IsReady (map run_line runs)
      ready [] = over
      ready ((t, w, p) ∷ runs) = more _ _ _

  -- The sizes are those of the plan, and the processes are to be read next.
  read_sizes-plan :
      (plan : Plan) (f : io.File)
      → IsPlan plan
      → text.Shows f (size_line plan.sizes ++ map run_line plan.runs)
      → (g : io.File) × (read_sizes io f
          ≡ returned (((config_of plan).memramsz, (config_of plan).memswpsz), g))
        × text.Shows g (map run_line plan.runs)
  unfolding read_sizes
  read_sizes-plan plan f fit shows = go plan.sizes plan.runs fit.sizes fit.runs shows
    where
      go :
          (sizes : Option (ℕ × ℕ × ℕ × ℕ × ℕ)) (runs : List (ℕ × String × ℕ))
          → SizesFit (record plan { sizes = sizes; runs = runs })
          → RunsFit runs
          → text.Shows f (size_line sizes ++ map run_line runs)
          → let c = config_of (record plan { sizes = sizes; runs = runs }) in
            (g : io.File) × (read_sizes io f ≡ returned ((c.memramsz, c.memswpsz), g))
            × text.Shows g (map run_line runs)
      go none [] fit runs shows = absurd (omega (arith, fit))
      go none ((t, w, p) ∷ runs) fit ((small, short, low), _) shows =
          let (b, got, line, left) =
            text.fgets-line 256 f (run_line (t, w, p)) (map run_line runs) (small, (low, tt))
              (omega (arith, short)) shows in
          let values =
            numbers_stop text 64 5 b (t ∷ []) (name w ∷ num p ∷ []) [] (small, tt) (omega arith)
              line (λ g h. text.number_name 64 g w (num p ∷ []) [] h) in
          (f, rw (got, values) refl, shows)
      go (some (a, b, c, d, e)) runs fit fits shows =
          let ns = a ∷ b ∷ c ∷ d ∷ e ∷ [] in
          let (buf, got, line, left) =
            text.fgets-line 256 f (map num ns) (map run_line runs) fit (omega arith) shows in
          let values =
            numbers_stop text 64 5 buf ns [] [] fit (omega arith) line
              (λ g h. text.number_end 64 g (inr h)) in
          (_, rw (got, values) refl, left)

  -- Where fopen opens a file that is written as a configuration, with the first three numbers
  -- below 2 ^ 31, the others below 2 ^ 64, names of at most 88 bytes, and a process at least where
  -- the line of sizes is missing, read_config returns what it means: the time slot, the numbers of
  -- CPUs and of processes, the sizes of the memories, which are 16 MiB for the RAM and the first
  -- swap device and 0 for the others where the file does not give them, and each process with its
  -- start time, path and priority, in order.
  pub read_config-plan :
      (path : String) (file : io.File) (blank : ℕ → ℕ × ℕ) (plan : Plan)
      → io.fopen path ≡ some file
      → text.Shows file (config_text plan)
      → IsPlan plan
      → read_config io path blank ≡ returned (config_of plan)
  unfolding read_config read_rest
  read_config-plan path file blank plan opened shows fit =
      let (values, left) =
        numbers_line-num text 31 file (plan.time_slot ∷ plan.num_cpus ∷ length plan.runs ∷ [])
          (size_line plan.sizes ++ map run_line plan.runs)
          (fit.time_slot, (fit.num_cpus, (fit.num_processes, tt))) (ready plan.sizes plan.runs)
          shows in
      let (g, sizes, left') = read_sizes-plan plan _ fit left in
      let entries = read_entries-runs plan.runs blank 0 g fit.runs left' in
      let f = (numbers_line io 31 3 file).1 in
      rw opened (ap (λ ns. read_rest io ns blank f) values ∙ rw (sizes, entries) refl)
    where
      ready :
          (sizes : Option (ℕ × ℕ × ℕ × ℕ × ℕ)) (runs : List (ℕ × String × ℕ))
          → IsReady (size_line sizes ++ map run_line runs)
      ready none [] = over
      ready none ((t, w, p) ∷ runs) = more _ _ _
      ready (some (a, b, c, d, e)) runs = more _ _ _
