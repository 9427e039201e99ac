-- ===== src/Handlers/Source.antt =====
-- src/command.c, `cmd_fan_source`: what a query of the source prints sets the same source.
use fanpico.Base.{
  ℕ, ◌+◌, ◌^◌, ◌≤◌, ◌<◌, ◌≡◌, refl, ap, true, false, arith, some, List, [], ◌∷◌, ◌++◌,
}
use fanpico.Base.Int.{pos, ◌-ℤ◌}
use fanpico.Base.Arith.{Arith}
use fanpico.Base.Text.{atoi, strtok, tokens_from, digits}
use fanpico.Base.Decimal.{strtol-decimal, strtok-decimal}
use fanpico.Types.{FanOutput, PwmSource, pwm_fixed}
use fanpico.Types.Board.{Board}
use fanpico.Settings.{to_unsigned}
use fanpico.Config.{pwm_source2str, valid_pwm_source_ref}
use fanpico.Config.Names.{str2pwm_source-pwm_source2str}
use fanpico.Commands.Run.{PrevCmds}
use fanpico.Handlers.{Env, Session, allocate, print_line, prev_place, set_fan}
use fanpico.Handlers.Fan.{fan_source, read_source, source_text, pwm_offset}

atoi-decimal : (n : ℕ) → n < 2 ^ 31 → atoi (digits 10 n) ≡ pos n
unfolding atoi
atoi-decimal n h = rw (atoi, strtol-decimal n h) refl

strtok-source :
    (type : PwmSource) (n : ℕ)
    → strtok b',' (pwm_source2str type ++ (b',' ∷ digits 10 n))
      ≡ pwm_source2str type ∷ digits 10 n ∷ []
unfolding strtok tokens_from pwm_source2str
strtok-source pwm_fixed n = rw (strtok-decimal n) refl
strtok-source _ n = rw (strtok-decimal n) refl

add-sub : (n m : ℕ) → (pos (n + m) -ℤ pos m) ≡ pos n
add-sub n m = ground arith

shown_number : (n m : ℕ) → n < 2 ^ 16 → to_unsigned (2 ^ 16) (pos (n + m) -ℤ pos m) ≡ n
unfolding to_unsigned
shown_number n m h = rw (add-sub n m) (ground arith)

offset_below : (type : PwmSource) → pwm_offset type ≤ 1
offset_below pwm_fixed = ground arith
offset_below _ = ground arith

read_source-source_text :
    {R : Type 0} (f : FanOutput R)
    → f.s_id < 2 ^ 16
    → valid_pwm_source_ref f.s_type f.s_id ≡ true
    → read_source (strtok b',' (source_text f)) ≡ (pos 0, some (f.s_type, f.s_id))
unfolding read_source
read_source-source_text f h valid =
    let n = f.s_id + pwm_offset f.s_type in
    let least = offset_below f.s_type in
    rw
      (
        strtok-source f.s_type n,
        read_source,
        atoi-decimal n (ground arith),
        str2pwm_source-pwm_source2str f.s_type,
        shown_number f.s_id (pwm_offset f.s_type) h,
        valid,
      )
      refl

module _ {R : Type 0} ⦃a : Arith R⦄ (e : Env R) (b : Board) where
  -- For two fans and a source that is valid, a query of the source of the one prints a line, and
  -- that text, sent as the argument for the other, sets the other's source to the same and nothing
  -- else, where the memory for a copy of the argument is given.
  pub fan_source_copies :
      (cmd args : List ℕ) (prev prev' : PrevCmds) (st : Session R) (i j p : ℕ)
      → prev_place b.fan_count prev 0 ≡ some i
      → prev_place b.fan_count prev' 0 ≡ some j
      → e.malloc st.mallocs ≡ some p
      → (st.config.fans i).s_id < 2 ^ 16
      → valid_pwm_source_ref (st.config.fans i).s_type (st.config.fans i).s_id ≡ true
      → (fan_source e b cmd args true prev st
          ≡ (pos 0, print_line st (source_text (st.config.fans i))))
        × (fan_source e b cmd (source_text (st.config.fans i)) false prev' st ≡ (
          pos 0,
          set_fan (allocate e st).1 j (record (st.config.fans j) {
            s_type = (st.config.fans i).s_type;
            s_id = (st.config.fans i).s_id;
          }),
        ))
  unfolding fan_source
  fan_source_copies cmd args prev prev' st i j p pi pj m h valid =
      let read = read_source-source_text (st.config.fans i) h valid in
      (rw (fan_source, pi) refl, rw (fan_source, pj, m, read, ap (λ x. x.0) read) refl)
