-- ===== src/Tests/Leaders.antt =====
-- A run of the tables of leaders on two logs, with one line skipped, and their theorems there.
use frugal_leader_election.Base.{ℕ, ◌≡◌, refl, List, [], ◌∷◌, Text, codes}
use frugal_leader_election.Base.Dict.{Dict, get}
use frugal_leader_election.Base.Equality.{nat_eq, list_eq}
use frugal_leader_election.Regex.{find, search_from, run, greedy, eat, eat_one}
use frugal_leader_election.Leaders.{
  analyze_folder, process_folder, process_file, skip_lines, step, rank_match, leader_match,
  note_rank, note_leader, node_name, rank_folder,
}
use frugal_leader_election.Leaders.Tables.{kept, first_leader, get-term_leaders}
use frugal_leader_election.Leaders.Ranks.{rank_folder-analyze_folder}

abbrev folder : List (Text × List Text)
folder =
    (
      codes "node_0.log",
      codes "The rank of 10.10.2.1:5000 is: 0"
          ∷ codes "The rank of 10.10.2.1:5000 is: 0"
          ∷ codes "Received AppendEntries from 10.10.2.1:5000 for term 3 with id 1"
          ∷ codes "Received AppendEntries from 10.10.2.2:5000 for term 3 with id 2"
          ∷ [],
    )
    ∷ (codes "client.log", codes "skipped" ∷ codes "The rank of 10.10.2.1:5000 is: 0" ∷ [])
    ∷ []

analyze_folder_test :
    analyze_folder 1 folder
    ≡ record { rank0_counts = (codes "node_1", 1) ∷ []; term_leaders = (3, codes "node_1") ∷ [] }
unfolding analyze_folder process_folder process_file skip_lines step rank_match leader_match
    note_rank note_leader node_name find search_from run greedy eat eat_one
analyze_folder_test = refl

get-term_leaders_example :
    get 3 (analyze_folder 1 folder).term_leaders ≡ first_leader 3 (kept 1 folder)
get-term_leaders_example = get-term_leaders 1 3 folder

abbrev terms : Dict ℕ Text
terms = (3, codes "node_1") ∷ (4, codes "node_2") ∷ (5, codes "node_1") ∷ []

rank_folder-analyze_folder_example :
    rank_folder 1 [] folder ≡ (analyze_folder 1 folder).rank0_counts
rank_folder-analyze_folder_example = rank_folder-analyze_folder 1 folder
