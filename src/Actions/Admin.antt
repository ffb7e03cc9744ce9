-- ===== src/Actions/Admin.antt =====
-- `ActStartStop` and `ActSubscribeTime` of src/act_startstop.C, `ActPasswd` and `ActIdPasswd` of
-- src/act_passwd.C, and `ActSetbonus` of src/act_bonus.C.
use abacuscm.Prelude.{
  ℕ, ◌-◌, ◌^◌, not, ◌||◌, Option, none, some, [], ◌==◌, if◌then◌else◌, Bytes, codes, eq_bytes,
  nat_order, bytes_order,
}
use abacuscm.Decimal.{from_string, from_string_signed, low_word}
use abacuscm.MessageBlock.{MessageBlock, header, error, ok_reply}
use abacuscm.Timer.{timer_status_started, timer_status_stopped}
use abacuscm.ClientEventRegistry.{register_for_event}
use abacuscm.Actions.{
  Environment, World, start_stop_content, passwd_content, bonus_content, trigger_message,
  uint32_max,
}

-- `TIMER_START` and `TIMER_STOP`
unfoldable pub timer_action : Bytes → Option ℕ
timer_action s =
    if eq_bytes s (codes "start")
    then some timer_status_started
    else if eq_bytes s (codes "stop")
    then some timer_status_stopped
    else none

-- The group of the request: no group and `all` are 0.
unfoldable pub requested_group : Bytes → Option ℕ
requested_group s =
    if eq_bytes s (codes "all") || eq_bytes s [] then some 0 else from_string uint32_max s

-- A `time_t` other than 0, cut to the `uint32_t` of the message.
unfoldable pub requested_time : Bytes → Option ℕ
requested_time s = elim (from_string_signed (2 ^ 63 - 1) s) [
  | none ↦ none
  | some n ↦ if n.1 == 0 then none else some (low_word n)
]

unfoldable pub start_stop : Environment → ℕ → MessageBlock → World → MessageBlock × World
start_stop env cc mb w = elim (timer_action (header mb (codes "action"))) [
  | none ↦ (error (codes "Invalid 'action', must be either 'start' or 'stop'"), w)
  | some action ↦ elim (requested_time (header mb (codes "time"))) [
    | none ↦ (error (codes "Invalid start/stop time specified"), w)
    | some t ↦ elim (requested_group (header mb (codes "group_id"))) [
      | none ↦ (error (codes "Invalid group_id specified"), w)
      | some group ↦
          trigger_message env
            (start_stop_content (record { group_id = group; time = t; action = action })) w
    ]
  ]
]

-- The second registration is made only where the first one is.
unfoldable pub subscribe_time : Environment → ℕ → MessageBlock → World → MessageBlock × World
subscribe_time env cc mb w =
    let first = register_for_event env.who (codes "startstop") cc w.registry in
    let second = register_for_event env.who (codes "updateclock") cc first.1 in
    if not first.0
    then (
      error (codes "Unable to subscribe to the 'startstop' event"),
      record w { registry = first.1 },
    )
    else if not second.0
    then (
      error (codes "Unable to subscribe to the 'startstop' event"),
      record w { registry = second.1 },
    )
    else (ok_reply, record w { registry = second.1 })

-- The end that both password actions share.
unfoldable pub change_password : Environment → ℕ → Bytes → Bytes → World → MessageBlock × World
change_password env user newpass failure w =
    if eq_bytes newpass []
    then (error (codes "Cannot have a blank password!"), w)
    else if eq_bytes (env.hashpw user newpass) []
    then (error failure, w)
    else trigger_message env
        (passwd_content (record { user_id = user; newpass = env.hashpw user newpass })) w

unfoldable pub passwd : Environment → ℕ → MessageBlock → World → MessageBlock × World
passwd env cc mb w =
    change_password env (env.who cc).user_id (header mb (codes "newpass"))
      (codes "Error hashing password.") w

unfoldable pub id_passwd : Environment → ℕ → MessageBlock → World → MessageBlock × World
id_passwd env cc mb w = elim (from_string uint32_max (header mb (codes "user_id"))) [
  | none ↦ (error (codes "user_id isn't a valid integer"), w)
  | some user ↦
      change_password env user (header mb (codes "newpass"))
        (codes "Invalid user id or hashing error.") w
]

unfoldable pub set_bonus : Environment → ℕ → MessageBlock → World → MessageBlock × World
set_bonus env cc mb w = elim (from_string uint32_max (header mb (codes "user_id"))) [
  | none ↦ (error (codes "user_id isn't a valid integer"), w)
  | some user ↦ elim (from_string_signed (2 ^ 31 - 1) (header mb (codes "points"))) [
    | none ↦ (error (codes "points isn't a valid integer"), w)
    | some points ↦ elim (from_string_signed (2 ^ 31 - 1) (header mb (codes "seconds"))) [
      | none ↦ (error (codes "seconds isn't a valid integer"), w)
      | some seconds ↦
          trigger_message env
            (bonus_content (record {
              bonus_user_id = user;
              points = low_word points;
              seconds = low_word seconds;
            }))
            w
    ]
  ]
]
