-- ===== src/Console.antt =====
-- kern/console.c and lib/readline.c: the input buffer of the console, and how a line is read from it.
-- The devices are lists: the values that a poll of the serial port or the keyboard returns before -1.
pub mod Ring
pub mod Line
mod Tests
use fos_kernel.Prelude.{
  ℕ, zero, suc, ◌+◌, ◌-◌, ◌*◌, ◌%◌, Bool, true, false, not, ◌&&◌, ◌||◌, ◌^◌, Option, none, some,
  List, [], ◌∷◌, ltb, leb, ◌==◌, if◌then◌else◌,
}

pub record Cons : Type 0 where
  pub buf : ℕ → ℕ
  pub rpos : ℕ
  pub wpos : ℕ

abbrev pub consbufsize : ℕ
consbufsize = 512

abbrev pub put : (ℕ → ℕ) → ℕ → ℕ → ℕ → ℕ
put f i v j = if j == i then v else f j

-- `pos++`, and back to 0 at the end of the buffer
abbrev pub advance : ℕ → ℕ
advance p = if p + 1 == consbufsize then 0 else p + 1

-- `cons.buf[cons.wpos++] = c`; the buffer's elements are `uint8`.
abbrev pub stash : ℕ → Cons → Cons
stash c s = record s { buf = put s.buf s.wpos (c % 256); wpos = advance s.wpos }

unfoldable pub cons_intr : List ℕ → Cons → Cons
cons_intr [] s = s
cons_intr (c ∷ cs) s = cons_intr cs (if c == 0 then s else stash c s)

abbrev pub next_char : Cons → ℕ × Cons
next_char s =
    if s.rpos == s.wpos then (0, s) else (s.buf s.rpos, record s { rpos = advance s.rpos })

-- `serial_intr` and `kbd_intr` poll their devices, then a character is taken.
unfoldable pub cons_getc : List ℕ → List ℕ → Cons → ℕ × Cons
cons_getc serial kbd s = next_char (cons_intr kbd (cons_intr serial s))

-- One poll of a device: none is -1.
abbrev pub poll : Option ℕ → Cons → Cons
poll none s = s
poll (some c) s = if c == 0 then s else stash c s

abbrev pub has_key : Option ℕ → Bool
has_key none = false
has_key (some c) = ltb 0 c

unfoldable pub cons_getc2 : Option ℕ → Option ℕ → Cons → ℕ × Cons
cons_getc2 serial kbd s =
    let j = poll kbd (poll serial s) in if has_key kbd then next_char j else (0, j)

abbrev pub got : ℕ × Cons → Option (ℕ × Cons) → Option (ℕ × Cons)
got (c, s) rest = if c == 0 then rest else some (c, s)

-- `getchar` over the polls to come; none is that it still waits when they are over.
unfoldable pub getchar : List (List ℕ × List ℕ) → Cons → Option (ℕ × Cons)
getchar [] s = none
getchar ((serial, kbd) ∷ polls) s =
    let r = cons_getc serial kbd s in let rest = getchar polls r.1 in got r rest

-- `readline`: the line is read, `getchar` has failed, or it waits for more.
pub data Reading : Type 0 where
  done : (ℕ → ℕ) → Reading
  failed : (ℕ → ℕ) → Reading
  waits : (ℕ → ℕ) → ℕ → Reading

-- A result of `getchar`: a character, or a negative number.
pub data Key : Type 0 where
  char : ℕ → Key
  error : Key

abbrev pub buflen : ℕ
buflen = 1024

abbrev pub is_end : ℕ → Bool
is_end c = if c == 10 then true else c == 13

-- An `int` is its 32-bit word; the words from 2 ^ 31 on stand for the negative numbers.
abbrev pub is_negative : ℕ → Bool
is_negative i = leb (2 ^ 31) i

-- `i < n` and `i > 0`, for an `n` that is not negative.
abbrev pub is_below : ℕ → ℕ → Bool
is_below i n = is_negative i || ltb i n

abbrev pub is_positive : ℕ → Bool
is_positive i = not (is_negative i) && ltb 0 i

-- The loop of `readline`, with `i` characters in the buffer.
unfoldable pub readline : List Key → ℕ → (ℕ → ℕ) → Reading
readline [] i buf = waits buf i
readline (error ∷ keys) i buf = failed buf
readline (char c ∷ keys) i buf =
    let typed = readline keys ((i + 1) % 2 ^ 32) (put buf i (c % 256)) in
    let erased = readline keys ((i + 2 ^ 32 - 1) % 2 ^ 32) buf in
    let ignored = readline keys i buf in
    if leb 32 c && is_below i (buflen - 1)
    then typed
    else if (c == 8) && is_positive i
    then erased
    else if is_end c
    then done (put buf i 0)
    else ignored
