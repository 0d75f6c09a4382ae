-- ===== src/Loader/RoundTrip.antt =====
-- src/loader.c on a program file that is written as its instructions are read.
use Prim.Native.String.{String, len}
use simple_os_simulator.Prelude.{
  ℕ, suc, ◌+◌, ◌*◌, ◌^◌, ◌<◌, ◌≡◌, refl, ap, sym, subst, ◌⊎◌, inl, inr, arith, false, none, some,
  List, [], ◌∷◌, map, length, ltb,
}
use mathlib.Core.List.{append-nil}
use simple_os_simulator.Prelude.Word.{u32}
use simple_os_simulator.Krnl.{Inst, Opcode}
use simple_os_simulator.Stdio.{
  Stdio, IsStdio, Field, name, num, Below, IsLine, width, IsReady, over, more, numbers,
  numbers_line, numbers-num, numbers_line-num, numbers_stop,
}
use simple_os_simulator.Loader.{
  returned, Arguments, nothing, fixed, rest_of_line, arguments, get_opcode, store, Memory, Reader,
  read_args, read_inst, read_code, load,
}
use simple_os_simulator.Loader.Written.{
  Written, takes, opcode_name, line, program, Fits, IsWritten, AllWritten, cleared, meant, code_of,
}

get_opcode-name : (op : Opcode) → get_opcode (opcode_name op) ≡ some op
unfolding get_opcode
get_opcode-name Opcode.calc = refl
get_opcode-name Opcode.alloc = refl
get_opcode-name Opcode.free = refl
get_opcode-name Opcode.read = refl
get_opcode-name Opcode.write = refl
get_opcode-name Opcode.kmalloc = refl
get_opcode-name Opcode.kmem_cache_create = refl
get_opcode-name Opcode.kmem_cache_alloc = refl
get_opcode-name Opcode.copy_from_user = refl
get_opcode-name Opcode.copy_to_user = refl
get_opcode-name Opcode.syscall = refl

len-name : (op : Opcode) → len (opcode_name op) < 32
len-name Opcode.calc = omega arith
len-name Opcode.alloc = omega arith
len-name Opcode.free = omega arith
len-name Opcode.read = omega arith
len-name Opcode.write = omega arith
len-name Opcode.kmalloc = omega arith
len-name Opcode.kmem_cache_create = omega arith
len-name Opcode.kmem_cache_alloc = omega arith
len-name Opcode.copy_from_user = omega arith
len-name Opcode.copy_to_user = omega arith
len-name Opcode.syscall = omega arith

arguments-takes : (op : Opcode) → arguments op ≡ takes op
arguments-takes Opcode.calc = refl
arguments-takes Opcode.alloc = refl
arguments-takes Opcode.free = refl
arguments-takes Opcode.read = refl
arguments-takes Opcode.write = refl
arguments-takes Opcode.kmalloc = refl
arguments-takes Opcode.kmem_cache_create = refl
arguments-takes Opcode.kmem_cache_alloc = refl
arguments-takes Opcode.copy_from_user = refl
arguments-takes Opcode.copy_to_user = refl
arguments-takes Opcode.syscall = refl

short : (op : Opcode) → ltb 31 (len (opcode_name op)) ≡ false
short op = ground (arith, len-name op)

IsLine-num : (ns : List ℕ) → Below 64 ns → IsLine (map num ns)
IsLine-num [] all = tt
IsLine-num (n ∷ ns) (small, all) = (small, IsLine-num ns all)

width-num : (ns : List ℕ) → width (map num ns) ≡ 21 * length ns
width-num [] = refl
width-num (n ∷ ns) = omega (arith, width-num ns)

module _ {io : Stdio} (text : IsStdio io) where
  -- The lines to come, at the head of the first of them or at the end of the one before.
  abbrev Before : io.File → List (List Field) → Type 0
  Before f ls = text.Shows f ls ⊎ text.Shows f ([] ∷ ls)

  word-Before :
      (f : io.File) (s : String) (l : List Field) (ls : List (List Field))
      → Before f ((name s ∷ l) ∷ ls)
      → ((io.word f).0 ≡ some s) × text.Shows (io.word f).1 (l ∷ ls)
  word-Before f s l ls (inl shows) = text.word-name f s l ls shows
  word-Before f s l ls (inr shows) = text.word_next f s l ls shows

  -- The arguments of a line are read as they are meant, and the next line comes.
  read_args-written :
      (r : Reader io) (kind : Arguments) (ns : List ℕ) (ins : Inst) (ls : List (List Field))
      → Fits kind (length ns)
      → Below 64 ns
      → IsReady ls
      → text.Shows r.file (map num ns ∷ ls)
      → (r' : Reader io) × (read_args io kind r ins ≡ returned (store ns (cleared kind ins), r'))
        × Before r'.file ls
  unfolding read_args
  read_args-written r nothing [] ins ls fits all ready shows = (r, refl, inr shows)
  read_args-written r nothing (n ∷ ns) ins ls fits all ready shows = absurd (omega (arith, fits))
  read_args-written r (fixed k) ns ins ls fits all ready shows =
      let (values, left) = numbers_line-num text 64 r.file ns ls all ready shows in
      let Reads : ℕ → Type 0 = λ k.
        (r' : Reader io) × (read_args io (fixed k) r ins ≡ returned (store ns ins, r'))
        × Before r'.file ls in
      subst Reads fits (
        record r { file = (numbers_line io 64 (length ns) r.file).1 },
        ap
            (λ v.
              returned (store v ins, record r { file = (numbers_line io 64 (length ns) r.file).1 }))
            values,
        inl left,
      )
  read_args-written r rest_of_line ns ins ls fits all ready shows =
      let fit : width (map num ns) + 2 < 200 = omega (arith, width-num ns, fits) in
      let (b, got, line, left) =
        text.fgets-line 200 r.file (map num ns) ls (IsLine-num ns all) fit shows in
      let whole = subst (λ l. text.Shows b (l ∷ [])) (sym (append-nil (map num ns))) line in
      let values =
        numbers_stop text 64 4 b ns [] [] all fits whole (λ g h. text.number_end 64 g (inr h)) in
      (record r { file = (io.fgets 200 r.file).1; buf = some b }, rw (got, values) refl, inl left)

  read_inst-written :
      (r : Reader io) (w : Written) (blank : Inst) (ls : List (List Field))
      → IsWritten w
      → IsReady ls
      → Before r.file (line w ∷ ls)
      → (r' : Reader io) × (read_inst io r blank ≡ returned (meant w blank, r')) × Before r'.file ls
  unfolding read_inst
  read_inst-written r w blank ls (fits, all) ready before =
      let (word, rest) = word-Before r.file (opcode_name w.opcode) (map num w.args) ls before in
      let next : Reader io = record r {
        file = (io.word r.file).1;
        opcode = some (opcode_name w.opcode);
      } in
      let (r', reads, after) =
        read_args-written next (takes w.opcode) w.args (record blank { opcode = w.opcode }) ls fits
          all ready rest in
      (
        r',
        rw (word, get_opcode-name w.opcode, short w.opcode, arguments-takes w.opcode) reads,
        after,
      )

  -- Line after line.
  read_code-written :
      (ws : List Written) (blank : ℕ → Inst) (i : ℕ) (r : Reader io)
      → AllWritten ws
      → Before r.file (map line ws)
      → read_code io (length ws) blank i r ≡ returned (code_of ws blank i)
  unfolding read_code
  read_code-written [] blank i r all before = refl
  read_code-written (w ∷ ws) blank i r (written, all) before =
      let (r', reads, after) =
        read_inst-written r w (blank i) (map line ws) written (ready ws) before in
      rw (reads, read_code-written ws blank (i + 1) r' all after) refl
    where
      ready : (ws : List Written) → IsReady (map line ws)
      ready [] = over
      ready (w ∷ ws) = more _ _ _

  -- Where fopen opens a file whose text is a program, with a priority and a number of lines below
  -- 2 ^ 32 and in each line as many numbers below 2 ^ 64 as its instruction takes, load returns
  -- the control block with the fresh pid, the program's priority, the first instruction to come,
  -- and the instructions that the lines mean, on whatever malloc left, and counts the next pid up.
  pub load-program :
      (path : String) (file : io.File) (memory : Memory) (avail_pid priority : ℕ)
      (ws : List Written)
      → io.fopen path ≡ some file
      → text.Shows file (program priority ws)
      → priority < 2 ^ 32
      → length ws < 2 ^ 32
      → AllWritten ws
      → load io path memory avail_pid
        ≡ returned (
          record {
            pid = avail_pid;
            priority = priority;
            prio = memory.prio;
            pc = 0;
            code = code_of ws memory.text 0;
            own_mm = none;
          },
          u32 (avail_pid + 1),
        )
  unfolding load
  load-program path file memory avail_pid priority ws opened shows small few all =
      let (values, left) =
        numbers-num text 32 file (priority ∷ length ws ∷ []) [] (map line ws) (small, (few, tt))
          shows in
      let code =
        read_code-written ws memory.text 0
          (record { file = (numbers io 32 2 file).1; opcode = none; buf = none }) all (inr left) in
      rw (opened, values, code) refl

  -- Where the file has ended before its number of instructions was read, and the last word was an
  -- instruction whose arguments fscanf reads, at least one of them, the next instruction read is
  -- that one once more, with the arguments that malloc left.
  pub read_inst_past :
      (r : Reader io) (opcode : Opcode) (k : ℕ) (blank : Inst)
      → text.Shows r.file []
      → r.opcode ≡ some (opcode_name opcode)
      → arguments opcode ≡ fixed (suc k)
      → (r' : Reader io) × (read_inst io r blank ≡ returned (record blank { opcode = opcode }, r'))
  unfolding read_inst read_args
  read_inst_past r opcode k blank ended last kind =
      let (no_word, still) = text.word_end r.file ended in
      let no_number = text.number_end 64 (io.word r.file).1 (inl still) in
      let after : Reader io = record r {
        file = (numbers_line io 64 (suc k) (io.word r.file).1).1;
        opcode = some (opcode_name opcode);
      } in
      let none_read : (numbers io 64 (suc k) (io.word r.file).1).0 ≡ [] =
        rw (no_number, numbers) refl in
      (
        after,
        rw (no_word, last, get_opcode-name opcode, short opcode, kind)
            (ap (λ ns. returned (store ns (record blank { opcode = opcode }), after)) none_read),
      )
