-- ===== src/Console/Line.antt =====
-- lib/readline.c: a line as it is edited.
use fos_kernel.Prelude.{
  ℕ, ◌+◌, ◌-◌, ◌%◌, ◌^◌, ◌<◌, ◌≤◌, ◌≡◌, refl, ◌∙◌, inl, inr, ◌&&◌, List, [], ◌∷◌, length, ltb, leb,
  false, ◌==◌, if◌then◌else◌, arith, Bool-cases, subst,
}
use fos_kernel.Console.{
  put, Reading, done, failed, waits, Key, char, error, buflen, is_end, readline,
}

-- A line that is edited, its last character first.
pub data Edit : Type 0 where
  finished : List ℕ → Edit
  stopped : Edit
  pending : List ℕ → Edit

abbrev pub drop_last : List ℕ → List ℕ
drop_last [] = []
drop_last (x ∷ xs) = xs

-- A key from the space on is appended while the line is shorter than 1023, a backspace removes the last
-- character, and a line feed or a carriage return ends the line.
unfoldable pub edit : List Key → List ℕ → Edit
edit [] text = pending text
edit (error ∷ keys) text = stopped
edit (char c ∷ keys) text =
    let typed = edit keys ((c % 256) ∷ text) in
    let erased = edit keys (drop_last text) in
    let ignored = edit keys text in
    if leb 32 c && ltb (length text) 1023
    then typed
    else if (c == 8) && ltb 0 (length text)
    then erased
    else if is_end c
    then finished text
    else ignored

-- The buffer holds the line.
abbrev pub Text : (ℕ → ℕ) → List ℕ → Type 0
Text buf [] = Unit {0}
Text buf (x ∷ xs) = (buf (length xs) ≡ x) × Text buf xs

Text-put :
    (buf : ℕ → ℕ) (i v : ℕ) (xs : List ℕ) → length xs ≤ i → Text buf xs → Text (put buf i v) xs
Text-put buf i v [] le t = tt
Text-put buf i v (x ∷ xs) le t = (ground (arith, t.0), Text-put buf i v xs (omega arith) t.1)

Text-drop_last : (buf : ℕ → ℕ) (xs : List ℕ) → Text buf xs → Text buf (drop_last xs)
Text-drop_last buf [] t = tt
Text-drop_last buf (x ∷ xs) t = t.1

length-drop_last : (xs : List ℕ) → length (drop_last xs) ≡ length xs - 1
length-drop_last [] = omega arith
length-drop_last (x ∷ xs) = omega arith

-- What was behind the buffer is as before.
abbrev pub Inside : (ℕ → ℕ) → (ℕ → ℕ) → Type 0
Inside buf b = (j : ℕ) → buflen ≤ j → b j ≡ buf j

Inside-put : (buf b : ℕ → ℕ) (i v : ℕ) → i < buflen → Inside (put buf i v) b → Inside buf b
Inside-put buf b i v lt h j le = h j le ∙ ground arith

-- The buffer follows the edited line.
abbrev pub Follows : (ℕ → ℕ) → Edit → Reading → Type 0
Follows buf e (done b) =
    (text : List ℕ) × (e ≡ finished text)
    × Text b text
    × (b (length text) ≡ 0)
    × (length text < buflen)
    × Inside buf b
Follows buf e (failed b) = (e ≡ stopped) × Inside buf b
Follows buf e (waits b i) =
    (text : List ℕ) × (e ≡ pending text) × Text b text × (i ≡ length text) × Inside buf b

Follows-put :
    (buf : ℕ → ℕ) (i v : ℕ) (e : Edit) (r : Reading)
    → i < buflen
    → Follows (put buf i v) e r
    → Follows buf e r
Follows-put buf i v e (done b) lt (text, is, t, end, short, inside) =
    (text, is, t, end, short, Inside-put buf b i v lt inside)
Follows-put buf i v e (failed b) lt (is, inside) = (is, Inside-put buf b i v lt inside)
Follows-put buf i v e (waits b k) lt (text, is, t, at, inside) =
    (text, is, t, at, Inside-put buf b i v lt inside)

follows :
    (keys : List Key) (text : List ℕ) (buf : ℕ → ℕ)
    → Text buf text
    → length text < buflen
    → Follows buf (edit keys text) (readline keys (length text) buf)
unfolding edit readline
follows [] text buf t short = (text, refl, t, refl, λ j le. refl)
follows (error ∷ keys) text buf t short = (refl, λ j le. refl)
follows (char c ∷ keys) text buf t short =
    let fits : leb (2 ^ 31) (length text) ≡ false = ground (arith, short) in
    elim (Bool-cases (leb 32 c && ltb (length text) 1023)) [
      | inl typed ↦
          let room : length text < 1023 = ground arith in
          rw (fits, typed)
            (Follows-put buf (length text) (c % 256) (edit keys ((c % 256) ∷ text))
              (readline keys ((length text + 1) % 2 ^ 32) (put buf (length text) (c % 256))) short
              (subst
                (λ n.
                  Follows (put buf (length text) (c % 256)) (edit keys ((c % 256) ∷ text))
                    (readline keys n (put buf (length text) (c % 256))))
                (omega (arith, short))
                (follows keys ((c % 256) ∷ text) (put buf (length text) (c % 256))
                  (ground arith, Text-put buf (length text) (c % 256) text (omega arith) t)
                  (omega (arith, room)))))
      | inr not_typed ↦ elim (Bool-cases ((c == 8) && ltb 0 (length text))) [
        | inl erased ↦
            let longer : 0 < length text = ground (arith, erased) in
            rw (fits, not_typed, erased)
              (subst (λ n. Follows buf (edit keys (drop_last text)) (readline keys n buf))
                (omega (arith, length-drop_last text, short, longer))
                (follows keys (drop_last text) buf (Text-drop_last buf text t)
                  (omega (arith, length-drop_last text, short))))
        | inr not_erased ↦ elim (Bool-cases (is_end c)) [
          | inl end ↦
              rw (fits, not_typed, not_erased, end)
                (
                  text,
                  refl,
                  Text-put buf (length text) 0 text (omega arith) t,
                  ground arith,
                  short,
                  λ j le. ground (arith, short),
                )
          | inr ignored ↦ rw (fits, not_typed, not_erased, ignored) (follows keys text buf t short)
        ]
      ]
    ]

-- `readline` keeps in its buffer the line as it is edited, whatever the keys: a finished line stands there
-- with a NUL behind it and has at most 1023 characters, and nothing outside of the 1024 bytes of
-- the buffer is written.
pub readline-Follows :
    (keys : List Key) (buf : ℕ → ℕ) → Follows buf (edit keys []) (readline keys 0 buf)
readline-Follows keys buf = follows keys [] buf tt (omega arith)
