-- ===== src/Views.antt =====
-- `parse_log_file` of scripts/analysis.py: cuts the log of a node into views, a new one whenever
-- the term or the role of the node changes, and counts the heartbeats of each.
pub mod Shape
pub mod Heartbeats
use frugal_leader_election.Base.{
  ℕ, ◌+◌, ◌≡◌, Bool, true, false, ◌&&◌, Option, none, some, List, [], ◌∷◌, ◌++◌, Text, codes, ◌==◌,
  length, if◌then◌else◌, max,
}
use frugal_leader_election.Base.Result.{Result, ok, err, type_error, ◌>>=◌, for_each}
use frugal_leader_election.Regex.{Regex, lit, one, many, times, group, some_of, ◌⨾◌, find, group_of}
use frugal_leader_election.Text.{is_digit, int, not_newline}
use frugal_leader_election.Time.{Datetime, strptime}
use frugal_leader_election.Window.Stamps.{clock_re}

pub data Role : Type 0 where
  leader follower : Role

abbrev pub role_eq : Role → Role → Bool
role_eq leader leader = true
role_eq leader follower = false
role_eq follower leader = false
role_eq follower follower = true

pub record View : Type 0 where
  pub view_number : ℕ
  pub role : Role
  pub term : ℕ
  pub heartbeat_count : ℕ

-- The variables of the loop.
pub record State : Type 0 where
  pub views : List View
  pub current_view : Option View
  pub current_term : Option ℕ
  pub current_role : Option Role

abbrev pub start : State
start = record { views = []; current_view = none; current_term = none; current_role = none }

-- `[IE]`
abbrev pub is_severity : ℕ → Bool
is_severity c = if c == b'I' then true else c == b'E'

-- `\d{8} \d{2}:\d{2}:\d{2}\.\d{6}`
abbrev pub date_re : Regex
date_re = times 8 is_digit ⨾ lit (codes " ") ⨾ clock_re

-- timestamp_pattern. The group is the stamp without its first letter, which the code cuts off.
abbrev pub timestamp_pattern : Regex
timestamp_pattern = one is_severity ⨾ group 1 date_re

abbrev pub leader_pattern : Regex
leader_pattern =
    lit (codes "[LEADER] Sent heartbeat ")
    ⨾ group 1 (some_of is_digit)
    ⨾ lit (codes " for term ")
    ⨾ group 2 (some_of is_digit)

abbrev pub follower_pattern : Regex
follower_pattern =
    lit (codes "Received heartbeat (AppendEntries) from leader ")
    ⨾ many not_newline
    ⨾ lit (codes " for term ")
    ⨾ group 1 (some_of is_digit)

-- The time stamp of a line; `none` where the loop goes on to the next line.
unfoldable pub timestamp_of : Text → Option Datetime
timestamp_of line = elim (find timestamp_pattern line) [
  | none ↦ none
  | some m ↦ strptime (group_of 1 m)
]

-- The heartbeat id and the term of a leader's line, and the term of a follower's line.
unfoldable pub leader_match : Text → Option (ℕ × ℕ)
leader_match line = elim (find leader_pattern line) [
  | none ↦ none
  | some m ↦ some (int (group_of 1 m), int (group_of 2 m))
]

unfoldable pub follower_match : Text → Option ℕ
follower_match line = elim (find follower_pattern line) [
  | none ↦ none
  | some m ↦ some (int (group_of 1 m))
]

-- `if current_view is not None: views.append(current_view)`
abbrev pub save : List View → Option View → List View
save views none = views
save views (some v) = views ++ (v ∷ [])

-- `current_term == term and current_role == role`
abbrev pub same_term : Option ℕ → ℕ → Bool
same_term none term = false
same_term (some t) term = t == term

abbrev pub same_role : Option Role → Role → Bool
same_role none role = false
same_role (some r) role = role_eq r role

-- A new view, if the term or the role is another one.
unfoldable pub enter : Role → ℕ → State → State
enter role term s =
    if same_term s.current_term term && same_role s.current_role role
    then s
    else (let views = save s.views s.current_view in
        record {
          views = views;
          current_view = some (record {
            view_number = length views + 1;
            role = role;
            term = term;
            heartbeat_count = 0;
          });
          current_term = some term;
          current_role = some role;
        })

-- A write to `current_view['heartbeat_count']`
unfoldable pub set_count : (ℕ → ℕ) → State → Result State
set_count f s = elim s.current_view [
  | none ↦ err type_error
  | some v ↦
      ok (record s { current_view = some (record v { heartbeat_count = f v.heartbeat_count }) })
]

unfoldable pub on_leader : Option (ℕ × ℕ) → State → Result State
on_leader none s = ok s
on_leader (some (heartbeat_id, term)) s = set_count (λ n. max n heartbeat_id) (enter leader term s)

unfoldable pub on_follower : Option ℕ → State → Result State
on_follower none s = ok s
on_follower (some term) s = set_count (λ n. n + 1) (enter follower term s)

-- One round of the loop over the lines.
unfoldable pub step : State → Text → Result State
step s line = elim (timestamp_of line) [
  | none ↦ ok s
  | some t ↦ on_leader (leader_match line) s >>= on_follower (follower_match line)
]

-- The views at the end, the last one saved too.
unfoldable pub finish : State → List View
finish s = save s.views s.current_view

unfoldable pub parse_log_file : List Text → Result (List View)
parse_log_file lines = for_each step start lines >>= λ s. ok (finish s)
