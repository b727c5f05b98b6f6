-- ===== src/Logs/Kept.antt =====
-- What `parseLogs` of internal/cluster/cluster.go returns of a log that the API server printed.
use kubernetes_monitor.Prelude.{
  ◌≡◌, refl, ◌∙◌, ◌≢◌, ◌-◌, ◌+◌, ℕ, zero, suc, ◌≤◌, ◌<◌, String, true, false, Option, none, List,
  [], ◌∷◌, ◌++◌, map, All, arith, Result, length, length-append, drop, drop_congr, leb, ltb,
  Bool-cases, inl, inr, last, replicate,
}
use kubernetes_monitor.Buffer.{new_circular_buffer}
use kubernetes_monitor.Buffer.Contents.{bytes-write, read_back}
use kubernetes_monitor.Logs.{
  LogLine, Stream, newline, space, split, split_n, split_log_line, keep_line, parse_lines,
  parse_bytes, parse_logs,
}
use kubernetes_monitor.Logs.Text.{Entry, line_of, text_of, print, IsEntry, split-line}
use kubernetes_monitor.Logs.Lines.{
  remnant, concat, kept, read_pieces-concat, drop_past, drop_within, text_lines, parse_lines-print,
  remnant-ReadsAs, ReadsAs, parse_lines_first, kept_fits, All-drop,
}

module _ (parse_time : List ℕ → Result String ℕ) where
  -- What stands in front of the kept lines in the bytes that the ring has: nothing, or the rest of the
  -- line before, up to its newline.
  pub data IsLeft (content : List ℕ) (kept_lines : List Entry) : List ℕ → Type 0 where
    nothing : content ≡ print kept_lines → IsLeft content kept_lines []
    line_end :
        (rest : List ℕ)
        → All (λ b. b ≢ newline) rest
        → content ≡ rest ++ newline ∷ print kept_lines
        → IsLeft content kept_lines rest

  abbrev EndsFrom : List ℕ → List Entry → List LogLine × Option String → Type 0
  EndsFrom content kept_lines r =
      (rest : List ℕ) × (cut : List LogLine) × IsLeft content kept_lines rest
      × ReadsAs parse_time rest cut
      × (r ≡ (cut ++ map line_of kept_lines, none))

  abbrev pub Ends : ℕ → List Entry → List LogLine × Option String → Type 0
  Ends size es r = EndsFrom (last size (print es)) (kept size es) r

  whole_parses :
      (size : ℕ) (es : List Entry)
      → All (IsEntry parse_time) es
      → length (print es) ≤ size
      → parse_bytes parse_time (last size (print es)) ≡ (map line_of es, none)
  unfolding parse_bytes
  whole_parses size es h fits =
      rw (drop_congr {m = length (print es) - size} {n = 0} (print es) (omega arith))
        (parse_lines-print parse_time true es h)

  nothing-ReadsAs : ReadsAs parse_time [] []
  unfolding remnant
  nothing-ReadsAs = remnant-ReadsAs parse_time []

  -- The whole log.
  whole-Ends :
      (size : ℕ) (es : List Entry)
      → All (IsEntry parse_time) es
      → length (print es) ≤ size
      → Ends size es (parse_bytes parse_time (last size (print es)))
  whole-Ends size es h fits = (
    [],
    [],
    nothing (
        rw (kept_fits parse_time size es fits)
          (drop_congr {m = length (print es) - size} {n = 0} (print es) (omega arith))),
    nothing-ReadsAs,
    rw (kept_fits parse_time size es fits) (whole_parses size es h fits),
  )

  -- A cut inside the first line.
  cut-Ends :
      (size n : ℕ) (line : List ℕ) (es : List Entry)
      → All (λ b. b ≢ newline) line
      → All (IsEntry parse_time) es
      → length (print es) ≤ size
      → n ≤ length line
      → EndsFrom
          (drop n (line ++ newline ∷ print es))
          (kept size es)
          (parse_bytes parse_time (drop n (line ++ newline ∷ print es)))
  unfolding parse_bytes
  cut-Ends size n line es free h fits inside =
      rw (kept_fits parse_time size es fits, drop_within n line (newline ∷ print es) inside)
        (
          drop n line,
          remnant parse_time (drop n line),
          line_end (drop n line) (All-drop parse_time n line free) refl,
          remnant-ReadsAs parse_time (drop n line),
          rw (split-line (drop n line) (print es) (All-drop parse_time n line free)) (
              parse_lines_first parse_time (drop n line) (split (print es)) (map line_of es)
                (parse_lines-print parse_time false es h)),
        )

  length-print :
      (line : List ℕ) (es : List Entry)
      → length (line ++ newline ∷ print es) ≡ length line + suc (length (print es))
  length-print line es = length-append line (newline ∷ print es)

  -- The end of a printed log, from anywhere in it.
  last-Ends :
      (size : ℕ) (es : List Entry)
      → All (IsEntry parse_time) es
      → Ends size es (parse_bytes parse_time (last size (print es)))
  last-Ends size [] h = whole-Ends size [] h (omega arith)
  last-Ends size (e ∷ es) h = elim (Bool-cases (leb (length (print (e ∷ es))) size)) [
    | inl fits ↦ whole-Ends size (e ∷ es) h (ground arith)
    | inr over ↦ rw over (elim (Bool-cases (ltb (length (print es)) size)) [
      | inl inside ↦
          cut-Ends size (length (print (e ∷ es)) - size) (text_of e) es
            (text_lines parse_time e h.0) h.1 (ground arith)
            (ground (arith, length-print (text_of e) es))
      | inr before ↦
          rw
            (drop_past (length (print (e ∷ es)) - size) (length (print es) - size) (text_of e)
              newline (print es) (ground (arith, length-print (text_of e) es)))
            (last-Ends size es h.1)
    ])
  ]

  split-replicate : (n : ℕ) → split (replicate n 0) ≡ replicate n 0 ∷ []
  unfolding split
  split-replicate zero = refl
  split-replicate (suc n) = rw (split-replicate n) refl

  split_n-replicate : (n : ℕ) → split_n (replicate n 0) ≡ none
  unfolding split_n
  split_n-replicate zero = refl
  split_n-replicate (suc n) = rw (split_n-replicate n) refl

  -- The ring that nothing was written to gives zeros, which are no line.
  parse_bytes-zeros : (n : ℕ) → parse_bytes parse_time (replicate n 0) ≡ ([], none)
  unfolding parse_bytes parse_lines split_log_line keep_line
  parse_bytes-zeros zero = refl
  parse_bytes-zeros (suc n) =
      rw (split-replicate (suc n)) (ground (arith, split_n-replicate (suc n)))

  read_back-print :
      (size : ℕ) (e : Entry) (es : List Entry)
      → read_back size (print (e ∷ es)) ≡ last size (print (e ∷ es))
  read_back-print size e es = of e.stamp e.message
    where
      of :
          (stamp message : List ℕ)
          → let text = (stamp ++ space ∷ message) ++ newline ∷ print es in
            read_back size text ≡ last size text
      of [] message = refl
      of (b ∷ stamp) message = refl

  parse_logs-bytes :
      (size : ℕ) (stream : Stream) (es : List Entry)
      → 0 < size
      → stream.error ≡ none
      → concat stream.pieces ≡ print es
      → parse_logs parse_time size stream ≡ parse_bytes parse_time (read_back size (print es))
  unfolding parse_logs
  parse_logs-bytes size stream es positive ends printed =
      rw
        (
          ends,
          read_pieces-concat (new_circular_buffer size) stream.pieces,
          printed,
          bytes-write size (print es) positive,
        )
        refl

  back-Ends :
      (size : ℕ) (es : List Entry)
      → All (IsEntry parse_time) es
      → Ends size es (parse_bytes parse_time (read_back size (print es)))
  back-Ends size [] h = (
    [],
    [],
    nothing (drop_congr {m = 0 - size} {n = 0} [] (omega arith)),
    nothing-ReadsAs,
    parse_bytes-zeros size,
  )
  back-Ends size (e ∷ es) h = rw (read_back-print size e es) (last-Ends size (e ∷ es) h)

  -- A stream that ends without an error, and whose pieces, however it is cut, are a printed log, is
  -- parsed without an error: the result is the lines of the longest end of the log that has at most as
  -- many bytes as the ring, in order. In front of them in the ring is nothing, or the rest of the line
  -- before; if that rest has the form of a line itself, a time stamp, a space and a message, then it
  -- stands as a line before them, and otherwise it is ignored.
  pub parse_logs-Ends :
      (size : ℕ) (stream : Stream) (es : List Entry)
      → 0 < size
      → stream.error ≡ none
      → concat stream.pieces ≡ print es
      → All (IsEntry parse_time) es
      → Ends size es (parse_logs parse_time size stream)
  parse_logs-Ends size stream es positive ends printed h =
      rw (parse_logs-bytes size stream es positive ends printed) (back-Ends size es h)

  back_whole :
      (size : ℕ) (es : List Entry)
      → All (IsEntry parse_time) es
      → length (print es) ≤ size
      → parse_bytes parse_time (read_back size (print es)) ≡ (map line_of es, none)
  back_whole size [] h fits = parse_bytes-zeros size
  back_whole size (e ∷ es) h fits =
      rw (read_back-print size e es) (whole_parses size (e ∷ es) h fits)

  -- A log of at most as many bytes as the ring has is parsed to exactly the lines that were printed,
  -- in order and without an error, however the stream cuts it into pieces, if it ends without one.
  pub parse_logs-print :
      (size : ℕ) (stream : Stream) (es : List Entry)
      → 0 < size
      → stream.error ≡ none
      → concat stream.pieces ≡ print es
      → All (IsEntry parse_time) es
      → length (print es) ≤ size
      → parse_logs parse_time size stream ≡ (map line_of es, none)
  parse_logs-print size stream es positive ends printed h fits =
      parse_logs-bytes size stream es positive ends printed ∙ back_whole size es h fits
