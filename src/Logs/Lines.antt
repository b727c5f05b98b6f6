-- ===== src/Logs/Lines.antt =====
-- How `parseLogs` of internal/cluster/cluster.go reads the lines of a printed log, and its pieces.
use kubernetes_monitor.Prelude.{
  ◌≡◌, refl, ◌∙◌, ◌≢◌, ◌+◌, ℕ, zero, suc, ◌≤◌, String, Bool, true, false, none, List, [], ◌∷◌, ◌++◌,
  map, All, All-append, arith, Result, ok, failed, length, drop, drop_congr, leb, if◌then◌else◌,
  Bool-cases, Option-cases, Result-cases, inl, inr, ap, ◌==◌, nat_eq, some, length-append,
}
use kubernetes_monitor.Buffer.{CircularBuffer, write}
use kubernetes_monitor.Buffer.Ring.{write-append}
use kubernetes_monitor.Logs.{
  LogLine, newline, space, split, split_n, split_log_line, keep_line, parse_lines, read_pieces,
}
use kubernetes_monitor.Logs.Text.{
  Entry, line_of, text_of, print, IsEntry, split-line, split_n-space,
}

abbrev pub concat : List (List ℕ) → List ℕ
concat [] = []
concat (piece ∷ pieces) = piece ++ concat pieces

-- The longest end of the log that prints to at most `size` bytes.
abbrev pub kept : ℕ → List Entry → List Entry
kept size [] = []
kept size (e ∷ es) = if leb (length (print (e ∷ es))) size then e ∷ es else kept size es

pub read_pieces-concat :
    (c : CircularBuffer) (pieces : List (List ℕ)) → read_pieces c pieces ≡ write c (concat pieces)
unfolding read_pieces write
read_pieces-concat c [] = refl
read_pieces-concat c (piece ∷ pieces) =
    read_pieces-concat (write c piece) pieces ∙ write-append c piece (concat pieces)

pub drop_past :
    (m n : ℕ) (xs : List ℕ) (b : ℕ) (ys : List ℕ)
    → m ≡ suc (length xs + n)
    → drop m (xs ++ b ∷ ys) ≡ drop n ys
drop_past m n [] b ys h = drop_congr {m = m} {n = suc n} (b ∷ ys) (omega arith)
drop_past zero n (x ∷ xs) b ys h = absurd (omega arith)
drop_past (suc m) n (x ∷ xs) b ys h = drop_past m n xs b ys (omega arith)

pub drop_within : (n : ℕ) (xs ys : List ℕ) → n ≤ length xs → drop n (xs ++ ys) ≡ drop n xs ++ ys
drop_within zero xs ys h = refl
drop_within (suc n) [] ys h = absurd (omega arith)
drop_within (suc n) (x ∷ xs) ys h = drop_within n xs ys (omega arith)

module _ (parse_time : List ℕ → Result String ℕ) where
  split_log_line-entry :
      (e : Entry) → IsEntry parse_time e → split_log_line parse_time (text_of e) ≡ ok (line_of e)
  unfolding split_log_line
  split_log_line-entry e h =
      ground (arith, split_n-space e.stamp e.message h.stamp_spaces, h.parses)

  parse_lines_cons :
      (first : Bool) (stamp message : List ℕ) (lines : List (List ℕ))
      → parse_lines parse_time first ((stamp ++ space ∷ message) ∷ lines)
        ≡ keep_line parse_time first
            (split_log_line parse_time (stamp ++ space ∷ message))
            (parse_lines parse_time false lines)
  unfolding parse_lines
  parse_lines_cons first [] message lines = refl
  parse_lines_cons first (b ∷ stamp) message lines = refl

  pub text_lines : (e : Entry) → IsEntry parse_time e → All (λ b. b ≢ newline) (text_of e)
  text_lines e h =
      All-append (λ b. b ≢ newline) e.stamp (space ∷ e.message) h.stamp_lines
        (λ p. absurd (omega (arith, p)), h.message_lines)

  pub parse_lines-print :
      (first : Bool) (es : List Entry)
      → All (IsEntry parse_time) es
      → parse_lines parse_time first (split (print es)) ≡ (map line_of es, none)
  unfolding parse_lines split keep_line
  parse_lines-print first [] h = refl
  parse_lines-print first (e ∷ es) h = rw (split-line (text_of e) (print es) (text_lines e h.0)) (
      parse_lines_cons first e.stamp e.message (split (print es))
      ∙ rw (split_log_line-entry e h.0, parse_lines-print false es h.1) refl)

  -- What is left of a line that was cut: a line, if it can be read as one.
  unfoldable pub remnant : List ℕ → List LogLine
  remnant [] = []
  remnant (b ∷ p) = elim (split_log_line parse_time (b ∷ p)) [ ok line ↦ line ∷ [] | failed e ↦ [] ]

  -- What the rest of a cut line reads as: the line, if it has the form of one, and nothing otherwise.
  pub data ReadsAs (rest : List ℕ) : List LogLine → Type 0 where
    as_line :
        (e : Entry)
        → parse_time e.stamp ≡ ok e.timestamp
        → All (λ b. b ≢ space) e.stamp
        → rest ≡ text_of e
        → ReadsAs rest (line_of e ∷ [])
    as_nothing :
        ((e : Entry)
          → parse_time e.stamp ≡ ok e.timestamp
          → All (λ b. b ≢ space) e.stamp
          → rest ≢ text_of e)
        → ReadsAs rest []

  split_n-parts :
      (p stamp message : List ℕ)
      → split_n p ≡ some (stamp, message)
      → (p ≡ stamp ++ space ∷ message) × All (λ b. b ≢ space) stamp
  unfolding split_n
  split_n-parts [] stamp message h = absurd (cc)
  split_n-parts (b ∷ p) stamp message h = elim (Bool-cases (b == space)) [
    | inl here ↦
        let is_space : b ≡ space = ground (arith, here) in
        let nothing : stamp ≡ [] = ground (arith, h, here) in
        let rest : message ≡ p = ground (arith, h, here) in rw (nothing, rest, is_space) (refl, tt)
    | inr later ↦ elim (Option-cases (split_n p)) [
      | inl q ↦ absurd (ground (arith, h, later, q))
      | inr ((stamp', message'), q) ↦
          let longer : stamp ≡ b ∷ stamp' = ground (arith, h, later, q) in
          let same : message ≡ message' = ground (arith, h, later, q) in
          let (parts, free) = split_n-parts p stamp' message' q in
          rw (longer, same) (ap (λ l. b ∷ l) parts, (λ e. ground (arith, later, e), free))
    ]
  ]

  pub remnant-ReadsAs : (p : List ℕ) → ReadsAs p (remnant p)
  unfolding remnant split_log_line
  remnant-ReadsAs [] = as_nothing (λ e parses free same.
      ground (arith, ap length same, length-append e.stamp (space ∷ e.message)))
  remnant-ReadsAs (b ∷ p) = elim (Option-cases (split_n (b ∷ p))) [
    | inl none_there ↦
        rw (none_there, remnant)
          (as_nothing
            (λ e parses free same. let found = split_n-space e.stamp e.message free in cc))
    | inr ((stamp, message), there) ↦
        let (parts, free) = split_n-parts (b ∷ p) stamp message there in
        elim (Result-cases (parse_time stamp)) [
          | inl (err, bad) ↦
              rw (there, bad, remnant)
                (as_nothing
                  (λ e parses free' same. let found = split_n-space e.stamp e.message free' in cc))
          | inr (ts, good) ↦
              rw (there, good, remnant)
                (as_line (record { stamp = stamp; timestamp = ts; message = message }) good free
                  parts)
        ]
  ]

  pub parse_lines_first :
      (p : List ℕ) (lines : List (List ℕ)) (rest : List LogLine)
      → parse_lines parse_time false lines ≡ (rest, none)
      → parse_lines parse_time true (p ∷ lines) ≡ (remnant p ++ rest, none)
  unfolding remnant parse_lines keep_line
  parse_lines_first [] lines rest h = h
  parse_lines_first (b ∷ p) lines rest h = ground arith

  pub kept_fits : (size : ℕ) (es : List Entry) → length (print es) ≤ size → kept size es ≡ es
  kept_fits size [] h = refl
  kept_fits size (e ∷ es) h = ground arith

  pub All-drop : (n : ℕ) (p : List ℕ) → All (λ b. b ≢ newline) p → All (λ b. b ≢ newline) (drop n p)
  All-drop zero p h = h
  All-drop (suc n) [] h = h
  All-drop (suc n) (b ∷ p) h = All-drop n p h.1
