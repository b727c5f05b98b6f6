-- ===== src/Logs/Text.antt =====
-- Printed log lines, and how `Split` and `SplitN` take them apart.
use kubernetes_monitor.Prelude.{
  ◌≡◌, refl, ◌≢◌, ℕ, String, some, List, [], ◌∷◌, ◌++◌, All, arith, Result, ok,
}
use kubernetes_monitor.Logs.{LogLine, newline, space, split, split_n}

-- A line as the API server prints it: a time stamp, a space, a message and a newline.
pub record Entry : Type 0 where
  pub stamp : List ℕ
  pub timestamp : ℕ
  pub message : List ℕ

abbrev pub line_of : Entry → LogLine
line_of e = record { timestamp = e.timestamp; message = e.message }

abbrev pub text_of : Entry → List ℕ
text_of e = e.stamp ++ space ∷ e.message

abbrev pub print : List Entry → List ℕ
print [] = []
print (e ∷ es) = text_of e ++ newline ∷ print es

-- A stamp that is a time stamp and has no space, and no newline in either part.
pub record IsEntry (parse_time : List ℕ → Result String ℕ) (e : Entry) : Type 0 where
  pub parses : parse_time e.stamp ≡ ok e.timestamp
  pub stamp_spaces : All (λ b. b ≢ space) e.stamp
  pub stamp_lines : All (λ b. b ≢ newline) e.stamp
  pub message_lines : All (λ b. b ≢ newline) e.message

pub split-line :
    (line rest : List ℕ)
    → All (λ b. b ≢ newline) line
    → split (line ++ newline ∷ rest) ≡ line ∷ split rest
unfolding split
split-line [] rest h = refl
split-line (b ∷ line) rest h = ground (arith, split-line line rest h.1)

pub split_n-space :
    (stamp message : List ℕ)
    → All (λ b. b ≢ space) stamp
    → split_n (stamp ++ space ∷ message) ≡ some (stamp, message)
unfolding split_n
split_n-space [] message h = refl
split_n-space (b ∷ stamp) message h = ground (arith, split_n-space stamp message h.1)
