-- ===== src/Tasks/Local.antt =====
-- The tasks that start and stop processes of this machine. `processes` is the table that the tasks
-- share within one run of `invoke`.
pub mod Tracked
use frugal_leader_election.Base.{
  ℕ, zero, suc, ◌+◌, ◌≡◌, refl, ap, ◌↔◌, Bool, true, false, Option, none, some, List, [], ◌∷◌, ◌++◌,
  Text, codes, map, arith, ◌==◌, ==_iff, if◌then◌else◌,
}
use frugal_leader_election.Base.Dict.{Dict, insert, values}
use frugal_leader_election.Base.Equality.{Eq, list_eq, list_beq, list_beq_iff, nat_eq}
use frugal_leader_election.Base.Result.{Result, ok, err, exit, key_error, remote_error}
use frugal_leader_election.Text.Decimal.{decimal}
use frugal_leader_election.Tasks.{nth}

-- The keys of `processes`: numbers for the replicas, texts for the clients.
pub data Name : Type 0 where
  replica : ℕ → Name
  client : Text → Name

abbrev name_beq : Name → Name → Bool
name_beq (replica a) (replica b) = a == b
name_beq (replica a) (client t) = false
name_beq (client s) (replica b) = false
name_beq (client s) (client t) = list_beq s t

client-injective : {s t : Text} → client s ≡ client t → s ≡ t
client-injective e = cc

pub replica-injective : {a b : ℕ} → replica a ≡ replica b → a ≡ b
replica-injective e = cc

pub name_beq_iff : (a b : Name) → (name_beq a b ≡ true) ↔ (a ≡ b)
name_beq_iff (replica a) (replica b) = ground (arith, ==_iff a b)
name_beq_iff (replica a) (client t) = (λ h. cc, λ h. cc)
name_beq_iff (client s) (replica b) = (λ h. cc, λ h. cc)
name_beq_iff (client s) (client t) =
    (λ h. ap client ((list_beq_iff s t).0 h), λ e. (list_beq_iff s t).1 (client-injective e))

instance abbrev pub name_eq : Eq Name
name_eq = record { beq = name_beq; beq_iff = name_beq_iff }

-- The table, the processes that were started and those asked to terminate, in order, and the log
-- files that are there.
pub record Local : Type 0 where
  pub processes : Dict Name ℕ
  pub started : List ℕ
  pub asked : List ℕ
  pub logs : List Text

abbrev pub fresh : Local
fresh = record { processes = []; started = []; asked = []; logs = [] }

-- What the tasks meet: whether the binary is there, the number of replicas in the YAML file or that
-- it cannot be read, the process that `Popen` starts or that it raises, and the exit code that a
-- process has, if it has ended.
pub record Machine : Type 0 where
  pub is_file : Local → Bool
  pub n_replicas : Local → Option ℕ
  pub popen : Local → List Text → Option ℕ
  pub poll : Local → ℕ → Option ℕ

abbrev pub Task : Type 0
Task = Machine → Local → Result (Unit {0}) × Local

abbrev pub open_log : Text → Local → Local
open_log log s = record s { logs = s.logs ++ (log ∷ []) }

abbrev pub register : Name → ℕ → Local → Local
register name pid s = record s {
  processes = insert name pid s.processes;
  started = s.started ++ (pid ∷ []);
}

abbrev pub launched : Name → Option ℕ → Local → Result (Unit {0}) × Local
launched name none s = (err remote_error, s)
launched name (some pid) s = (ok tt, register name pid s)

-- `open` of the log, `Popen`, and the entry in the table
abbrev pub launch : Name → (words : List Text) → (log : Text) → Task
launch name words log w s = let t = open_log log s in launched name (w.popen t words) t

abbrev pub replica_words : ℕ → List Text
replica_words i =
    codes "../bazel-bin/leader_election"
    ∷ codes "--config=../configs/local.yaml"
    ∷ (codes "--replicaId=" ++ decimal i)
    ∷ codes "--minloglevel=3"
    ∷ []

abbrev pub replica_log : ℕ → Text
replica_log i = codes "logs/node_" ++ (decimal i ++ codes ".log")

abbrev pub and_then : Task → Task → Task
and_then m k w s = let (r, t) = m w s in elim r [ err e ↦ (err e, t) | ok u ↦ k w t ]

-- The loop over the replicas, from the number `i` on
unfoldable pub start_replicas : (i n : ℕ) → Task
start_replicas i zero w s = (ok tt, s)
start_replicas i (suc n) w s =
    and_then (launch (replica i) (replica_words i) (replica_log i)) (start_replicas (suc i) n) w s

-- `rm -f logs/*` comes behind the YAML file.
abbrev pub start_configured : Option ℕ → Task
start_configured none w s = (err key_error, s)
start_configured (some n) w s = start_replicas 0 n w (record s { logs = [] })

unfoldable pub start : Task
start w s = if w.is_file s then start_configured (w.n_replicas s) w s else (err (exit "1"), s)

-- `killpg` may raise, which is caught: the process is asked in any case.
abbrev pub terminate_all : Local → Local
terminate_all s = record s { processes = []; asked = s.asked ++ values s.processes }

unfoldable pub stop : Task
stop w s = elim s.processes [ [] ↦ (ok tt, s) | p ∷ ps ↦ (ok tt, terminate_all s) ]

unfoldable pub restart : Task
restart = and_then stop start

-- `status`: what it prints of each process, which is its exit code or none while it runs
unfoldable pub status : Machine → Local → List (Name × Option ℕ)
status w s = map (λ (p : Name × ℕ). (p.0, w.poll s p.1)) s.processes

abbrev pub attempt : Task → Task
attempt m w s = (ok tt, (m w s).1)

abbrev client_words : (server_ip server_port value : Text) → ℕ → List Text
client_words server_ip server_port value client_id =
    codes "../bazel-bin/client"
    ∷ server_ip
    ∷ server_port
    ∷ codes "maxcap"
    ∷ value
    ∷ decimal client_id
    ∷ []

-- `start_client`, with its random number
unfoldable pub start_client : (server_ip server_port value bind_ip log_suffix : Text) → ℕ → Task
start_client server_ip server_port value bind_ip log_suffix client_id = attempt (
    launch (client (codes "client"))
      (client_words server_ip server_port value client_id ++ (bind_ip ∷ []))
      (codes "logs/" ++ (log_suffix ++ codes ".log")))

abbrev client_name : ℕ → Text
client_name i = codes "client_" ++ decimal i

-- The loop of `start_clients`, over the numbers of the clients from `i` on
unfoldable pub start_clients_from : (server_ip server_port value : Text) → ℕ → List ℕ → Task
start_clients_from server_ip server_port value i [] w s = (ok tt, s)
start_clients_from server_ip server_port value i (id ∷ ids) w s =
    and_then
      (attempt (
        launch (client (client_name i)) (client_words server_ip server_port value id)
          (codes "logs/" ++ (client_name i ++ codes ".log"))))
      (start_clients_from server_ip server_port value (suc i) ids) w s

unfoldable pub start_clients : (server_ip server_port value : Text) → Task
start_clients server_ip server_port value =
    start_clients_from server_ip server_port value 1 (123 ∷ 456 ∷ 789 ∷ 1011 ∷ [])

-- `overhead_exp`, whose pauses change nothing here
unfoldable pub overhead_exp : (server_ip server_port value bind_ip : Text) → ℕ → Task
overhead_exp server_ip server_port value bind_ip client_id =
    and_then start (start_client server_ip server_port value bind_ip (codes "client") client_id)
