-- ===== src/Raft/Leader/BackOff/Rounds.antt =====
-- The rounds of messages, refusals and smaller next indices between a leader and one peer.
use projects_cpp.Prelude.{
  ℕ, zero, suc, ◌+◌, ◌≤◌, ◌≡◌, ◌⊎◌, refl, sym, ap, ◌∙◌, subst, inl, inr, true, false, List, some,
  arith, length, drop, get_elem?, get_elem?-some, set, get_elem?-set_self, get_elem?-lt,
}
use projects_cpp.Prelude.Int.{ℤ, pos, ◌≤ℤ◌}
use projects_cpp.Raft.State.{Raft, LogEntry, AppendEntriesArgs, AppendEntriesReply, Timeval}
use projects_cpp.Raft.Codec.RoundTrip.{IsEncodable}
use projects_cpp.Raft.Persist.{save_raft_state}
use projects_cpp.Raft.Append.{append_entries, accept_term}
use projects_cpp.Raft.Append.Accept.{logs-accept_term}
use projects_cpp.Raft.Leader.{append_args, args_for, make_args, prev_term, term_of, append_reply}
use projects_cpp.Raft.Leader.Replicate.{sent}
use projects_cpp.Raft.Leader.BackOff.Progress.{HasTerms, refusal-sets_next}
use projects_cpp.Raft.Leader.BackOff.Answers.{append_entries-total}

-- Round after round, from round `i` to round `j`, the peer refuses the leader's message and the
-- leader handles the reply.
pub data Refusals (clock : ℕ → Timeval) (peer : ℕ)
    : ℕ → Raft → Raft → ℕ → Raft → Raft → Type 0 where
  none_yet : {i : ℕ} {l f : Raft} → Refusals clock peer i l f i l f
  refused :
      {i j : ℕ} {l f l1 f1 l2 f2 : Raft} (args : AppendEntriesArgs) (reply : AppendEntriesReply)
      → append_args l peer ≡ some args
      → append_entries (clock i) f args ≡ some (f1, reply)
      → reply.success ≡ false
      → append_reply l peer args reply ≡ some l1
      → Refusals clock peer (suc i) l1 f1 j l2 f2
      → Refusals clock peer i l f j l2 f2

-- From round `i` on the peer refuses at most `n` messages and then takes one, with its log as it
-- was before, and the leader's log is as it was too.
pub record TakesWithin (clock : ℕ → Timeval) (peer i n : ℕ) (l f : Raft) : Type 0 where
  pub last : ℕ
  pub within : last ≤ i + n
  pub leader : Raft
  pub before : Raft
  pub behind : Raft
  pub args : AppendEntriesArgs
  pub reply : AppendEntriesReply
  pub refusals : Refusals clock peer i l f last leader before
  pub message : append_args leader peer ≡ some args
  pub answer : append_entries (clock last) before args ≡ some (behind, reply)
  pub taken : reply.success ≡ true
  pub ours : leader.logs ≡ l.logs
  pub theirs : before.logs ≡ f.logs

prev_term_of :
    (n : ℕ) (logs : List LogEntry) → n ≤ length logs → (t : ℤ) × (prev_term (pos n) logs ≡ some t)
prev_term_of zero logs h = (_, refl)
prev_term_of (suc k) logs h = let (x, found) = get_elem?-some logs k h in (x.term, ap term_of found)

cur_term-accept_term :
    (now : Timeval) (term : ℤ) (r : Raft) → (accept_term now term r).cur_term ≡ term
unfolding accept_term save_raft_state
cur_term-accept_term now term r = ground arith

-- One refused round in front.
TakesWithin-refused :
    {clock : ℕ → Timeval} {peer i n m : ℕ} {l f l1 f1 : Raft} (args : AppendEntriesArgs)
    (reply : AppendEntriesReply)
    → append_args l peer ≡ some args
    → append_entries (clock i) f args ≡ some (f1, reply)
    → reply.success ≡ false
    → append_reply l peer args reply ≡ some l1
    → l1.logs ≡ l.logs
    → f1.logs ≡ f.logs
    → suc m ≤ n
    → TakesWithin clock peer (suc i) m l1 f1
    → TakesWithin clock peer i n l f
TakesWithin-refused args reply made answer lost handled ours theirs less rest = record {
  last = rest.last;
  within = omega (arith, rest.within, less);
  leader = rest.leader;
  before = rest.before;
  behind = rest.behind;
  args = rest.args;
  reply = rest.reply;
  refusals = refused args reply made answer lost handled rest.refusals;
  message = rest.message;
  answer = rest.answer;
  taken = rest.taken;
  ours = rest.ours ∙ ours;
  theirs = rest.theirs ∙ theirs;
}

suc_of : (m : ℕ) → 1 ≤ m → (p : ℕ) × (m ≡ suc p)
suc_of zero h = absurd (omega arith)
suc_of (suc p) h = (p, refl)

-- The leader with a new next index for the peer, when it has handled a refusal.
abbrev backed_off : Raft → ℕ → ℕ → Raft
backed_off l peer next =
    save_raft_state (record l { next_index = set l.next_index peer (pos next) })

-- A round is the last one, or the peer refuses and the next index of the leader is smaller.
one_round :
    (clock : ℕ → Timeval) (peer i n : ℕ) (l f : Raft)
    → get_elem? l.next_index peer ≡ some (pos (suc n))
    → n ≤ length l.logs
    → HasTerms f.logs
    → f.cur_term ≤ℤ l.cur_term
    → IsEncodable 59 l.logs
    → TakesWithin clock peer i n l f
      ⊎ ((m : ℕ) × (f1 : Raft) × (suc m ≤ n)
          × (f1.logs ≡ f.logs)
          × (f1.cur_term ≡ l.cur_term)
          × (TakesWithin clock peer (suc i) m (backed_off l peer (suc m)) f1
              → TakesWithin clock peer i n l f))
unfolding append_args save_raft_state
one_round clock peer i n l f next within terms low plain =
    let (t, ours) = prev_term_of n l.logs within in
    let made : append_args l peer ≡ some (sent l n t) =
      ap (args_for l) next ∙ ap (make_args l (pos n)) ours in
    let (f1, reply, answer, decoded, decided) = append_entries-total (clock i) l f n t low plain in
    elim decided [
      | inl taken ↦ inl (record {
        last = i;
        within = omega arith;
        leader = l;
        before = f;
        behind = f1;
        args = sent l n t;
        reply = reply;
        refusals = none_yet;
        message = made;
        answer = answer;
        taken = taken;
        ours = refl;
        theirs = refl;
      })
      | inr (lost, same) ↦
          let (m, handled, low_m, high) =
            refusal-sets_next (clock i) l f f1 peer n (sent l n t) (drop n l.logs) reply refl refl
              within ours terms low decoded lost in
          let (p, is) = suc_of m low_m in
          let kept : f1.logs ≡ f.logs =
            ap (λ s. s.logs) same ∙ logs-accept_term (clock i) l.cur_term f in
          inr (
            p,
            f1,
            subst (λ x. x ≤ n) is high,
            kept,
            ap (λ s. s.cur_term) same ∙ cur_term-accept_term (clock i) l.cur_term f,
            λ rest.
                TakesWithin-refused (sent l n t) reply made answer lost
                  (subst (λ x. append_reply l peer (sent l n t) reply ≡ some (backed_off l peer x))
                    is handled)
                  refl kept (subst (λ x. x ≤ n) is high) rest,
          )
    ]

ends_on_fuel :
    (k : ℕ) (clock : ℕ → Timeval) (peer i n : ℕ) (l f : Raft)
    → n ≤ k
    → get_elem? l.next_index peer ≡ some (pos (suc n))
    → n ≤ length l.logs
    → HasTerms f.logs
    → f.cur_term ≤ℤ l.cur_term
    → IsEncodable 59 l.logs
    → TakesWithin clock peer i n l f
unfolding save_raft_state
ends_on_fuel zero clock peer i n l f enough next within terms low plain =
    elim (one_round clock peer i n l f next within terms low plain) [
      | inl done ↦ done
      | inr (m, f1, less, kept, term, then) ↦ absurd (omega (arith, less, enough))
    ]
ends_on_fuel (suc k) clock peer i n l f enough next within terms low plain =
    elim (one_round clock peer i n l f next within terms low plain) [
      | inl done ↦ done
      | inr (m, f1, less, kept, term, then) ↦ then (
          ends_on_fuel k clock peer (suc i) m (backed_off l peer (suc m)) f1
            (omega (arith, less, enough))
            (get_elem?-set_self l.next_index peer (pos (suc m))
              (get_elem?-lt l.next_index peer next))
            (omega (arith, less, within)) (subst HasTerms (sym kept) terms)
            (subst (λ z. z ≤ℤ l.cur_term) (sym term) (omega arith)) plain)
    ]

-- A leader whose next index for a peer is n + 1, for an entry n of its log or n = 0, and a node of
-- no higher term: in rounds of a message, its reply and the handling of it, with nothing else in
-- between, the peer refuses at most n messages and then takes one; both logs are as they were
-- before that message. No entry of the node has the term -1, and no command of the leader's log
-- holds a comma or a semicolon.
pub back_off_ends :
    (clock : ℕ → Timeval) (peer i n : ℕ) (l f : Raft)
    → get_elem? l.next_index peer ≡ some (pos (suc n))
    → n ≤ length l.logs
    → HasTerms f.logs
    → f.cur_term ≤ℤ l.cur_term
    → IsEncodable 59 l.logs
    → TakesWithin clock peer i n l f
back_off_ends clock peer i n l f = ends_on_fuel n clock peer i n l f (omega arith)
