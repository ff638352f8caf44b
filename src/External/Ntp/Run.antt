-- ===== src/External/Ntp/Run.antt =====
-- The loop of the NTP monitor, `run` of drivers/drmem-drv-ntp/src/driver.rs.
use drmem.Base.{ℕ, Bool, true, false, List, [], ◌∷◌, ◌++◌, Option, none, some, if◌then◌else◌}
use drmem.Api.Value.{Text}
use drmem.External.Ntp.Info.{Parsers, Info, bad_value, info_eq}
use drmem.External.Ntp.Reply.{Recv, get_synced_host, get_host_info, Host, waiting, returned}

-- What one round of the loop meets: whether each request can be sent, and what comes back.
pub record Round : Type 0 where
  pub sent : Bool
  pub reply : Recv
  pub sent_info : Bool
  pub packets : List Recv

module _ (P : Parsers) where
  pub data Report : Type 0 where
    source : Text → Report
    offset delay : P.F → Report
    state : Bool → Report

  pub record Instance : Type 0 where
    pub seq : ℕ
    pub info : Option (Info P)

  -- A round that waits for a packet for ever is `stuck`.
  pub data Next : Type 0 where
    stuck : Next
    next : Instance → List Report → Next

  -- No host, or no information on it.
  abbrev pub lost : ℕ → Option (Info P) → Next
  lost seq none = next (record { seq = seq; info = none }) []
  lost seq (some i) = next (record { seq = seq; info = none }) (state false ∷ [])

  unfoldable pub is_same : Option (Info P) → Info P → Bool
  unfolding info_eq
  is_same none i = false
  is_same (some old) i = info_eq P old i

  abbrev all_of : Info P → List Report
  all_of i = source i.host ∷ offset i.offset_ms ∷ delay i.delay_ms ∷ state true ∷ []

  unfoldable pub found : ℕ → Option (Info P) → Host P → Next
  unfolding is_same
  found seq info waiting = stuck
  found seq info (returned none) = lost seq info
  found seq info (returned (some tmp)) =
      if is_same info tmp
      then next (record { seq = seq; info = info }) []
      else next (record { seq = seq; info = some tmp }) (all_of tmp)

  unfoldable pub asked : Instance → Round → ℕ → Option ℕ → Next
  unfolding get_host_info found
  asked st r seq none = lost seq st.info
  asked st r seq (some id) =
      let (req, seq, host) = get_host_info P seq id r.sent_info r.packets in found seq st.info host

  unfoldable pub round : Instance → Round → Next
  unfolding get_synced_host asked
  round st r = let (req, seq, id) = get_synced_host st.seq r.sent r.reply in asked st r seq id

  unfoldable pub create_instance : Instance
  unfolding bad_value
  create_instance = record { seq = 1; info = some (bad_value P) }

  -- The rounds up to one that is stuck.
  unfoldable pub run_from : Instance → List Round → Instance × List Report
  unfolding round
  run_from st [] = (st, [])
  run_from st (r ∷ rs) = elim (round st r) [
    | stuck ↦ (st, [])
    | next st' sent ↦ let (last, more) = run_from st' rs in (last, sent ++ more)
  ]

  unfoldable pub run : List Round → Instance × List Report
  unfolding run_from create_instance
  run rs = run_from create_instance rs
