-- ===== src/Grades/Command/Adding.antt =====
-- The command `addStudentGrade` as a whole, from the line of input.
use gtu_cse344_system_progra.Base.{inr}
use gtu_cse344_system_progra.Base.{inl}
use gtu_cse344_system_progra.Base.{Bool-cases}
use gtu_cse344_system_progra.Base.{◌⊎◌}
use gtu_cse344_system_progra.Base.{◌<◌}
use gtu_cse344_system_progra.Base.{length}
use gtu_cse344_system_progra.Base.{
  ℕ, ◌≡◌, refl, ap, ap₂, suc, ◌∙◌, some, [], ◌∷◌, ◌++◌, if◌then◌else◌, map,
}
use gtu_cse344_system_progra.Base.Strings.{
  same_name, codes, strtok, skip, some_token, cut, Lacks, strtok_next,
}
use gtu_cse344_system_progra.Grades.Shell.{
  Bytes, input, invalid_grade, Shell, Os, goes_on, log_file,
}
use gtu_cse344_system_progra.Grades.Command.Letters.{
  grades, IsAmong, Spells, InLower, to_lower-InLower, Spells-to_upper, valid_grade-spelled,
  valid_grade-IsAmong,
}
use gtu_cse344_system_progra.Grades.Tokens.{quote, nth_token, to_lower, to_upper, valid_grade}
use gtu_cse344_system_progra.Grades.Book.{add_student_grade}
use gtu_cse344_system_progra.Grades.Command.{
  call, add_command, add_grade, keyword, dispatch, first_token, run_command,
}

-- The line `addStudentGrade "<name>" "<grade>"`.
abbrev pub add_line : Bytes → Bytes → Bytes
add_line name grade =
    codes "addStudentGrade " ++ (quote ∷ (name ++ (quote ∷ b' ' ∷ quote ∷ (grade ++ (quote ∷ [])))))

strtok-keyword :
    (rest : Bytes)
    → strtok quote (codes "addStudentGrade " ++ (quote ∷ rest))
      ≡ some (codes "addStudentGrade ", rest)
unfolding strtok skip some_token cut
strtok-keyword rest = refl

keyword-add : keyword (codes "addStudentGrade ") ≡ add_grade
unfolding keyword same_name
keyword-add = refl

strtok-blank : (rest : Bytes) → strtok quote (b' ' ∷ quote ∷ rest) ≡ some (b' ' ∷ [], rest)
unfolding strtok skip some_token cut
strtok-blank rest = refl

nth_token_next :
    (n : ℕ) (s token rest : Bytes)
    → strtok quote s ≡ some (token, rest)
    → nth_token (suc n) s ≡ nth_token n rest
unfolding nth_token
nth_token_next n s token rest h = rw (nth_token, h) refl

nth_token-name :
    (c : ℕ) (name rest : Bytes)
    → Lacks quote (c ∷ name)
    → nth_token 0 ((c ∷ name) ++ (quote ∷ rest)) ≡ some (c ∷ name)
unfolding nth_token
nth_token-name c name rest h = rw (nth_token, strtok_next quote c name rest h) refl

nth_token-grade :
    (c d : ℕ) (name grade : Bytes)
    → Lacks quote (c ∷ name)
    → Lacks quote (d ∷ grade)
    → nth_token 2 ((c ∷ name) ++ (quote ∷ b' ' ∷ quote ∷ ((d ∷ grade) ++ (quote ∷ []))))
      ≡ some (d ∷ grade)
nth_token-grade c d name grade h k =
    nth_token_next 1 _ (c ∷ name) rest (strtok_next quote c name rest h)
    ∙ nth_token_next 0 rest (b' ' ∷ []) _ (strtok-blank ((d ∷ grade) ++ (quote ∷ [])))
    ∙ nth_token-name d grade [] k
  where
    rest : Bytes
    rest = b' ' ∷ quote ∷ ((d ∷ grade) ++ (quote ∷ []))

add_line_runs :
    (os : ℕ → Os) (c d : ℕ) (name grade : Bytes) (s : Shell)
    → Lacks quote (c ∷ name)
    → Lacks quote (d ∷ grade)
    → let line = add_line (c ∷ name) (d ∷ grade) in
      let s' = log_file (os 0) (input line) s in
      run_command os line s ≡ (
        if valid_grade (map to_upper (d ∷ grade))
        then add_student_grade
            (os 0)
            s'.filename
            (map to_lower (c ∷ name))
            (map to_upper (d ∷ grade))
            s'
        else goes_on (log_file (os 0) invalid_grade s'))
unfolding run_command first_token dispatch add_command call
add_line_runs os c d name grade s h k =
    ap (λ t. first_token os t s') (strtok-keyword rest)
    ∙ ap (λ w. dispatch os w rest s') keyword-add
    ∙ ap₂ (λ a b. add_command (os 0) a b s')
        (nth_token-name c name (b' ' ∷ quote ∷ ((d ∷ grade) ++ (quote ∷ []))) h)
        (nth_token-grade c d name grade h k)
  where
    rest : Bytes
    rest = (c ∷ name) ++ (quote ∷ b' ' ∷ quote ∷ ((d ∷ grade) ++ (quote ∷ [])))

    s' : Shell
    s' = log_file (os 0) (input (add_line (c ∷ name) (d ∷ grade))) s

-- The command `addStudentGrade "<name>" "<grade>"`, in a line of fewer than 90 bytes, with a name and a
-- grade that are not empty and hold no quote and no byte 0, is logged. Then, where the grade is one
-- of the ten grades, spelled in capitals or small letters, the grade in capitals is added to the
-- current file with the name in small letters; where it spells none of the ten, only the invalid
-- grade is logged.
pub add_grade_line :
    (os : ℕ → Os) (c d : ℕ) (name grade : Bytes) (s : Shell)
    → Lacks quote (c ∷ name)
    → Lacks quote (d ∷ grade)
    → Lacks 0 (c ∷ name)
    → Lacks 0 (d ∷ grade)
    → length (add_line (c ∷ name) (d ∷ grade)) < 90
    → let line = add_line (c ∷ name) (d ∷ grade) in
      let s' = log_file (os 0) (input line) s in
      (small : Bytes) × InLower (c ∷ name) small
      × (((g : Bytes) × IsAmong g grades
            × Spells (d ∷ grade) g
            × (run_command os line s ≡ add_student_grade (os 0) s'.filename small g s'))
          ⊎ ((g : Bytes) → IsAmong g grades → ¬ Spells (d ∷ grade) g)
            × (run_command os line s ≡ goes_on (log_file (os 0) invalid_grade s')))
add_grade_line os c d name grade s h k h0 k0 short = (
  map to_lower (c ∷ name),
  to_lower-InLower (c ∷ name),
  elim (Bool-cases (valid_grade (map to_upper (d ∷ grade)))) [
    | inl e ↦ inl (
      map to_upper (d ∷ grade),
      valid_grade-IsAmong (map to_upper (d ∷ grade)) e,
      Spells-to_upper (d ∷ grade),
      add_line_runs os c d name grade s h k ∙ rw e refl,
    )
    | inr e ↦ inr (
      λ g m t. cc (e, valid_grade-spelled (d ∷ grade) g m t),
      add_line_runs os c d name grade s h k ∙ rw e refl,
    )
  ],
)
