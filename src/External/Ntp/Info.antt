-- ===== src/External/Ntp/Info.antt =====
-- The text that an NTP server sends of a peer, `server` of drivers/drmem-drv-ntp/src/driver.rs.
use drmem.Base.{ℕ, Bool, ◌&&◌, List, [], ◌∷◌, Option, none, some, if◌then◌else◌}
use drmem.Base.Split.{split}
use drmem.Api.Value.{Text, eqb_text}

-- `f64` with its parser and its equality, and `char::is_whitespace`.
pub record Parsers : Type 1 where
  pub F : Type 0
  pub parse_f64 : Text → Option F
  pub feq : F → F → Bool
  pub fzero : F
  pub is_whitespace : ℕ → Bool

-- `filter(|v| !v.is_empty())`
abbrev non_empty : List Text → List Text
non_empty [] = []
non_empty ([] ∷ ts) = non_empty ts
non_empty ((c ∷ s) ∷ ts) = (c ∷ s) ∷ non_empty ts

abbrev srcadr : Text
srcadr = b's' ∷ b'r' ∷ b'c' ∷ b'a' ∷ b'd' ∷ b'r' ∷ []

abbrev offset : Text
offset = b'o' ∷ b'f' ∷ b'f' ∷ b's' ∷ b'e' ∷ b't' ∷ []

abbrev delay : Text
delay = b'd' ∷ b'e' ∷ b'l' ∷ b'a' ∷ b'y' ∷ []

module _ (P : Parsers) where
  pub record Info : Type 0 where
    pub host : Text
    pub offset_ms : P.F
    pub delay_ms : P.F

  unfoldable pub bad_value : Info
  bad_value = record { host = []; offset_ms = P.fzero; delay_ms = P.fzero }

  -- The derived `PartialEq`.
  unfoldable pub info_eq : Info → Info → Bool
  info_eq a b =
      eqb_text a.host b.host && (P.feq a.offset_ms b.offset_ms && P.feq a.delay_ms b.delay_ms)

  -- What is known of the peer so far.
  pub record Found : Type 0 where
    pub adr : Option Text
    pub off : Option P.F
    pub dly : Option P.F

  abbrev keep_if : Option P.F → Option P.F → Option P.F
  keep_if none old = old
  keep_if (some v) old = some v

  abbrev update_field : Found → Text → Text → Found
  update_field state key v =
      if eqb_text key srcadr
      then record state { adr = some v }
      else if eqb_text key offset
      then record state { off = keep_if (P.parse_f64 v) state.off }
      else if eqb_text key delay
      then record state { dly = keep_if (P.parse_f64 v) state.dly }
      else state

  abbrev update_with : Found → List Text → Found
  update_with state (key ∷ v ∷ []) = update_field state key v
  update_with state _ = state

  unfoldable pub update_host_info : Found → Text → Found
  unfolding split
  update_host_info state item = update_with state (split b'=' item)

  abbrev trim_start : Text → Text
  trim_start [] = []
  trim_start (c ∷ s) = let rest = trim_start s in if P.is_whitespace c then rest else c ∷ s

  abbrev fold : Found → List Text → Found
  unfolding update_host_info
  fold state [] = state
  fold state (item ∷ items) = fold (update_host_info state (trim_start item)) items

  abbrev of_found : Option Text → Option P.F → Option P.F → Option Info
  of_found (some a) (some o) (some d) = some (record { host = a; offset_ms = o; delay_ms = d })
  of_found _ _ _ = none

  unfoldable pub decode_info : Text → Option Info
  unfolding split fold
  decode_info input =
      let r = fold (record { adr = none; off = none; dly = none }) (non_empty (split b',' input)) in
      of_found r.adr r.off r.dly
