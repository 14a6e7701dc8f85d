-- ===== src/Audit/Tests.antt =====
-- Runs of the audit sink, and the theorems at these inputs.
use dcops.Base.{◌≡◌, refl, true, false, Option, none, some, List, [], ◌∷◌, length, ◌==◌, not}
use dcops.Audit.Sink.{
  put, ack, Env, Entry, object_key, acknowledge, process_entry, process_all, consume_loop,
}
use dcops.Audit.Acks.{delivered, Backed, consume_loop-Backed}

-- MinIO is down for its second call only.
abbrev outage : Env
outage = record {
  sha256 = λ body. body;
  today = λ h. "2026/01/01";
  put_bytes = λ h. not (length h == 2);
  xack = λ h. true;
}

abbrev reads : List (Option (List Entry))
reads =
    some ((1, ("data", "a") ∷ []) ∷ (2, ("data", "b") ∷ []) ∷ []) ∷ none ∷ some ((3, []) ∷ []) ∷ []

second_not_acked :
    (consume_loop outage reads []).1
    ≡ ack 3
      ∷ put "audit/2026/01/01/b.json" "b" 2 false
      ∷ ack 1
      ∷ put "audit/2026/01/01/a.json" "a" 1 true
      ∷ []
unfolding consume_loop process_all process_entry acknowledge object_key
second_not_acked = refl

consume_loop-Backed_example : Backed (delivered reads) (consume_loop outage reads []).1
consume_loop-Backed_example = consume_loop-Backed outage reads
