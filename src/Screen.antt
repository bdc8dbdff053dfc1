-- ===== src/Screen.antt =====
-- veetee-firmware/main/veetee_screen_model.c and veetee_screen_model.h: which screen a device state
-- shows, and what an overlay gives way to.
use veetee_vuqb.Base.{◌≡◌, Bool, true, false, arith, if◌then◌else◌}
use veetee_vuqb.Device.{State, idle, connecting, listening, thinking, speaking}

-- vt_screen_id_t
pub data ScreenId : Type 0 where
  pairing_screen home_screen connecting_screen listening_screen thinking_screen : ScreenId
  speaking_screen interrupted_screen error_screen notice_screen : ScreenId

pub screen_for_state : State → ScreenId
screen_for_state connecting = connecting_screen
screen_for_state listening = listening_screen
screen_for_state thinking = thinking_screen
screen_for_state speaking = speaking_screen
screen_for_state idle = home_screen

pub is_overlay : ScreenId → Bool
is_overlay interrupted_screen = true
is_overlay error_screen = true
is_overlay notice_screen = true
is_overlay _ = false

pub overlay_restore : ScreenId → State → ScreenId
unfolding is_overlay screen_for_state
overlay_restore screen state = if is_overlay screen then screen_for_state state else screen

-- Restoring never leaves an overlay up, restoring again changes nothing, and a screen that is no
-- overlay stays as it is.
pub overlay_restore_lem :
    (screen : ScreenId) (s t : State)
    → (is_overlay (overlay_restore screen s) ≡ false)
      × (overlay_restore (overlay_restore screen s) t ≡ overlay_restore screen s)
      × (is_overlay screen ≡ false → overlay_restore screen s ≡ screen)
unfolding overlay_restore
overlay_restore_lem screen s t = (ground arith, ground arith, λ h. ground arith)

-- The screens of two states differ if the states do: the display always tells them apart.
pub screen_for_state-injective : (s t : State) → screen_for_state s ≡ screen_for_state t → s ≡ t
unfolding screen_for_state
screen_for_state-injective s t h = ground arith
