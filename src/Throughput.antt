-- ===== src/Throughput.antt =====
-- scripts/remote_thp_summary.py: the answers per second in the log of a client.
pub mod Buckets
pub mod Merge
use frugal_leader_election.Base.{
  ℕ, Bool, ◌&&◌, Option, none, some, List, [], ◌∷◌, ◌++◌, Text, codes, leb, keep, map,
  if◌then◌else◌,
}
use frugal_leader_election.Base.Dict.{Dict}
use frugal_leader_election.Base.Equality.{nat_eq}
use frugal_leader_election.Base.Counter.{tally}
use frugal_leader_election.Base.Sort.{sorted}
use frugal_leader_election.Base.Int.{ℤ}
use frugal_leader_election.Base.Result.{Result, ok, err, exit, value_error, or_raise, ◌>>=◌}
use frugal_leader_election.Text.{is_space, not_newline}
use frugal_leader_election.Regex.{Regex, lit, one, many_lazy, boundary, ◌⨾◌, find, group_of}
use frugal_leader_election.Time.{Datetime, strptime, plus, less, seconds, whole_second}
use frugal_leader_election.Window.Stamps.{ts_re}

-- RE_LINE, which starts like the pattern of the other scripts for a time stamp
abbrev pub re_line : Regex
re_line =
    ts_re
    ⨾ one is_space
    ⨾ many_lazy not_newline
    ⨾ lit (codes "Received ClientResponse:")
    ⨾ many_lazy not_newline
    ⨾ boundary
    ⨾ lit (codes "success=1")
    ⨾ boundary

-- The time of a line that reports a success.
unfoldable pub success_timestamp : Text → Result (Option Datetime)
success_timestamp line = elim (find re_line line) [
  | none ↦ ok none
  | some m ↦ do
    t ← or_raise (strptime (group_of 1 m ++ (b' ' ∷ group_of 2 m))) value_error
    ok (some t)
]

abbrev pub yield_to : Option Datetime → List Datetime → List Datetime
yield_to none ts = ts
yield_to (some t) ts = t ∷ ts

unfoldable pub parse_success_timestamps : List Text → Result (List Datetime)
parse_success_timestamps [] = ok []
parse_success_timestamps (line ∷ lines) = do
  t ← success_timestamp line
  ts ← parse_success_timestamps lines
  ok (yield_to t ts)

-- `ts[-1]`
abbrev pub last_of : Datetime → List Datetime → Datetime
last_of t [] = t
last_of t (u ∷ ts) = last_of u ts

abbrev pub in_window : Datetime → Datetime → Datetime → Bool
in_window start_ok end_ok t = leb start_ok t && leb t end_ok

-- `sorted(d.items())`; the keys of a dict differ.
abbrev pub insert_item : ℕ × ℕ → Dict ℕ ℕ → Dict ℕ ℕ
insert_item x [] = x ∷ []
insert_item x (y ∷ d) = let rest = insert_item x d in if leb x.0 y.0 then x ∷ y ∷ d else y ∷ rest

abbrev pub sorted_items : Dict ℕ ℕ → Dict ℕ ℕ
sorted_items [] = []
sorted_items (x ∷ d) = insert_item x (sorted_items d)

-- `per_sec`, of the samples that are left
abbrev pub buckets : List Datetime → Result (Dict Datetime ℕ)
buckets [] = err (exit "All samples trimmed away.")
buckets (t ∷ ts) = ok (sorted_items (tally (map whole_second (t ∷ ts))))

-- `main` behind the parser, on the sorted times
unfoldable pub summarise : ℤ → List Datetime → Result (Dict Datetime ℕ)
summarise trim [] = err (exit "No successful responses found.")
summarise trim (t ∷ ts) = do
  start_ok ← plus t (seconds trim)
  end_ok ← less (last_of t ts) (seconds trim)
  buckets (keep (in_window start_ok end_ok) (t ∷ ts))

-- The rows that are written.
unfoldable pub throughput : ℤ → List Text → Result (Dict Datetime ℕ)
throughput trim lines = do ts ← parse_success_timestamps lines; summarise trim (sorted ts)
