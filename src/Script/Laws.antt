-- ===== src/Script/Laws.antt =====
-- What is read from a file, and what is uploaded.
use lib_urx.Base.{
  [], ◌∷◌, some, true, false, refl, ℕ, ◌≡◌, if◌then◌else◌, List, length, ◌==◌, ◌≤◌, pos, ret,
  Bool-cases, arith, ◌<◌, inl, is_positive, inr, ==_iff, take_all, List-cases, ◌∙◌, ap, Bool, ◌&&◌,
}
use lib_urx.Bytes.{Bytes}
use lib_urx.Con.{Con}
use lib_urx.Con.Laws.{do_send_lem}
use lib_urx.Script.{
  Script, set_script, read_file, get_lines, append_lines, replace_returns, replace_tabs, get_script,
  upload_script,
}

-- The text with a newline at its end, unless it is empty or has one.
abbrev pub ended : Bytes → Bytes
ended [] = []
ended (c ∷ []) = if c == 10 then c ∷ [] else c ∷ 10 ∷ []
ended (c ∷ d ∷ cs) = c ∷ ended (d ∷ cs)

get_lines_cons :
    (c : ℕ) (cs : Bytes) → (l : Bytes) × (ls : List Bytes) × (get_lines (c ∷ cs) ≡ l ∷ ls)
unfolding get_lines
get_lines_cons c cs = elim (Bool-cases (c == 10)) [
  | inl e ↦ ([], get_lines cs, rw e)
  | inr e ↦ elim (List-cases (get_lines cs)) [
    | inl f ↦ (c ∷ [], [], rw (e, f))
    | inr (l, ls, f) ↦ (c ∷ l, ls, rw (e, f))
  ]
]

append_get :
    (c : ℕ) (cs l : Bytes) (ls : List Bytes)
    → get_lines cs ≡ l ∷ ls
    → append_lines (get_lines (c ∷ cs)) ≡ c ∷ append_lines (get_lines cs)
unfolding append_lines get_lines
append_get c cs l ls h = elim (Bool-cases (c == 10)) [
  | inl e ↦ let line_end = (==_iff c 10).0 e in rw (e, line_end)
  | inr e ↦ rw (e, h)
]

-- Reading a text line by line gives the text with a newline at its end.
lines_lem : (cs : Bytes) → append_lines (get_lines cs) ≡ ended cs
unfolding append_lines get_lines
lines_lem [] = refl
lines_lem (c ∷ []) = elim (Bool-cases (c == 10)) [
  | inl e ↦ let line_end = (==_iff c 10).0 e in rw (e, line_end)
  | inr e ↦ rw e
]
lines_lem (c ∷ d ∷ cs) =
    let (l, ls, e) = get_lines_cons d cs in
    append_get c (d ∷ cs) l ls e ∙ ap (◌∷◌ c) (lines_lem (d ∷ cs))

-- Whether a text begins with a newline.
abbrev pub at_newline : Bytes → Bool
at_newline [] = false
at_newline (c ∷ cs) = c == 10

-- A text in which each tab (9) is eight blanks (32) and no return (13) stands before a newline.
abbrev pub spaced : Bytes → Bytes
spaced [] = []
spaced (c ∷ cs) =
    if c == 9
    then 32 ∷ 32 ∷ 32 ∷ 32 ∷ 32 ∷ 32 ∷ 32 ∷ 32 ∷ spaced cs
    else if c == 13 && at_newline cs
    then spaced cs
    else c ∷ spaced cs

-- The text that is sent for a file.
abbrev pub formatted : Bytes → Bytes
formatted cs = spaced (ended cs)

kept_char :
    (c : ℕ) (cs : Bytes)
    → (c == 13 && at_newline cs) ≡ false
    → replace_returns (c ∷ cs) ≡ c ∷ replace_returns cs
unfolding replace_returns
kept_char c [] h = rw h
kept_char c (d ∷ cs) h = rw h

dropped_return :
    (c : ℕ) (cs : Bytes)
    → (c == 13 && at_newline cs) ≡ true
    → replace_returns (c ∷ cs) ≡ replace_returns cs
unfolding replace_returns
dropped_return c [] h = rw h
dropped_return c (d ∷ cs) h = rw h

-- The two replacements of the program, one after the other, make that text.
formatted_lem : (cs : Bytes) → replace_tabs (replace_returns cs) ≡ spaced cs
unfolding replace_tabs replace_returns
formatted_lem [] = refl
formatted_lem (c ∷ cs) = elim (Bool-cases (c == 13 && at_newline cs)) [
  | inl e ↦
      let no_tab : (c == 9) ≡ false = ground (arith, e) in
      ap replace_tabs (dropped_return c cs e) ∙ formatted_lem cs ∙ rw (no_tab, e)
  | inr e ↦ elim (Bool-cases (c == 9)) [
    | inl f ↦ ap replace_tabs (kept_char c cs e) ∙ rw (replace_tabs, f, formatted_lem cs)
    | inr f ↦ ap replace_tabs (kept_char c cs e) ∙ rw (replace_tabs, f, e, formatted_lem cs)
  ]
]

ended_cons : (c : ℕ) (cs : Bytes) → 1 ≤ length (ended (c ∷ cs))
ended_cons c [] = ground arith
ended_cons c (d ∷ cs) = omega arith

set_script_lem :
    (s : Script) (n : ℕ) (name : Bytes)
    → set_script s (n ∷ name) true ≡ (record s { fname = n ∷ name; parsed = false }, true)
unfolding set_script
set_script_lem s n name = ground arith

read_file_lem :
    (s : Script) (n c : ℕ) (name cs : Bytes)
    → s.fname ≡ n ∷ name
    → read_file s (some (c ∷ cs)) ≡ some (record s { script = ended (c ∷ cs); parsed = true }, true)
unfolding read_file
read_file_lem s n c name cs h =
    let named : (length s.fname == 0) ≡ false = ground (arith, ap length h) in
    let full : (length (ended (c ∷ cs)) == 0) ≡ false = ground (arith, ended_cons c cs) in
    simp (lines_lem (c ∷ cs), named, full)

get_script_lem :
    (s : Script)
    → s.parsed ≡ true
    → get_script s ≡ some (record s { script = spaced s.script }, spaced s.script)
unfolding get_script
get_script_lem s h = simp (h, formatted_lem s.script)

-- A file that is there and not empty is uploaded whole over a connection that takes it: its lines,
-- with a newline behind the last, without each return that stands before a newline and with all
-- others, and with eight blanks for each tab. The result is true.
pub upload_script-sends :
    (s : Script) (con : Con) (n m c : ℕ) (name cs : Bytes)
    → con.connected ≡ true
    → length (formatted (c ∷ cs)) ≤ m
    → 0 < m
    → upload_script s con (n ∷ name) true (some (c ∷ cs)) (pos m)
      ≡ some (
          ret (
            record { fname = n ∷ name; script = formatted (c ∷ cs); parsed = true },
            record con { outgoing = formatted (c ∷ cs) ∷ con.outgoing },
            true,
          ))
unfolding upload_script
upload_script-sends s con n m c name cs k w p =
    let text = formatted (c ∷ cs) in
    let sent = do_send_lem con text (length text) m k (omega arith) w in
    let positive : is_positive (pos m) ≡ true = ground (arith, p) in
    simp (
      set_script_lem s n name,
      read_file_lem (record s { fname = n ∷ name; parsed = false }) n c name cs refl,
      get_script_lem (record s { fname = n ∷ name; script = ended (c ∷ cs); parsed = true }) refl,
      sent,
      positive,
      take_all text,
      upload_script,
    )
