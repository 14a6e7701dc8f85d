-- ===== src/Ingestion/Tests.antt =====
-- Runs of the telemetry writer, and the theorems at these inputs.
use dcops.Base.{
  inl, none, ℕ, ◌*◌, ◌≤◌, ◌≡◌, refl, true, false, some, Bool, List, [], ◌∷◌, ◌++◌, map,
}
use dcops.Base.Int.{pos}
use dcops.Base.Result.{Result, ok, err, type_error}
use dcops.Value.{Value, Dict, Items, nil, cons}
use dcops.Ingestion.Writer.{
  Row, row, Writer, empty_writer, Move, arrives, wakes, consumer_ends, ticker_ends, consume, tick,
  move, run,
}
use dcops.Ingestion.Rows.{taken, received, count}
use dcops.Ingestion.Service.{
  working, Service, start, Step, moves, delivers, breaks, cancels, last_flush, cancel, dict_of,
  step, serve,
}
use dcops.Ingestion.Stop.{heard, serve-table}
use dcops.Ingestion.Over.{serve-delivers, serve-Calm}
use dcops.Ingestion.Loss.{Calm, run-Calm}

abbrev reading : ℕ → Dict
reading n = ("metric", Value.str "fan.rpm") ∷ ("value", Value.int (pos n)) ∷ []

-- The second reading comes while the ticker inserts the first, and is lost.
abbrev lossy : List Move
lossy = arrives (reading 1) ∷ wakes true ∷ arrives (reading 2) ∷ ticker_ends true ∷ []

abbrev calm : List Move
calm = arrives (reading 1) ∷ wakes true ∷ ticker_ends true ∷ arrives (reading 2) ∷ wakes false ∷ []

one_lost :
    ((run 10 lossy empty_writer).table ≡ row (reading 1) ∷ [])
    × ((run 10 lossy empty_writer).batch ≡ [])
    × (received 10 lossy empty_writer ≡ reading 1 ∷ reading 2 ∷ [])
unfolding run move consume tick received taken
one_lost = (refl, refl, refl)

-- The limit is reached while the ticker inserts: both insert the first reading.
abbrev doubling : List Move
doubling =
    arrives (reading 1)
    ∷ wakes true
    ∷ arrives (reading 2)
    ∷ ticker_ends true
    ∷ consumer_ends true
    ∷ []

one_doubled :
    (run 2 doubling empty_writer).table ≡ row (reading 1) ∷ row (reading 1) ∷ row (reading 2) ∷ []
unfolding run move consume tick
one_doubled = refl

abbrev every : Row → Bool
every r = true

-- `dict` of a list, of the empty list only.
abbrev pairs : Items → Result Dict
pairs nil = ok []
pairs (cons v vs) = err type_error

-- The ticker inserts the first reading when the task is cancelled, before this is committed; the last
-- flush inserts it, while a second reading comes too late.
abbrev cancelled_run : List Step
cancelled_run =
    moves (arrives (reading 1))
    ∷ moves (wakes true)
    ∷ cancels false false
    ∷ moves (arrives (reading 2))
    ∷ moves (ticker_ends true)
    ∷ moves (consumer_ends true)
    ∷ []

one_stored : (serve pairs 2 cancelled_run start).writer.table ≡ row (reading 1) ∷ []
unfolding serve step cancel last_flush move consume tick
one_stored = refl

-- Both coroutines insert the first reading when the task is cancelled, and both insertions are
-- committed; the last flush inserts it again.
abbrev tripling : List Step
tripling =
    moves (arrives (reading 1))
    ∷ moves (wakes true)
    ∷ moves (arrives (reading 2))
    ∷ cancels true true
    ∷ moves (consumer_ends true)
    ∷ []

one_tripled :
    (serve pairs 2 tripling start).writer.table
    ≡ row (reading 1) ∷ row (reading 2) ∷ row (reading 1) ∷ row (reading 1) ∷ row (reading 2) ∷ []
unfolding serve step cancel last_flush move consume tick
one_tripled = refl

-- A message that holds a number, between two readings.
abbrev odd_message : List Step
odd_message =
    delivers (Value.int (pos 7)) ∷ moves (arrives (reading 2)) ∷ moves (consumer_ends true) ∷ []

serve-table_example :
    count every (serve pairs 2 (map moves doubling ++ cancelled_run) start).writer.table
    ≤ 3 * count every (map row (heard pairs 2 (map moves doubling ++ cancelled_run) start))
serve-table_example = serve-table pairs 2 every (map moves doubling ++ cancelled_run)

-- The ticker inserts the first reading.
abbrev inserting : Writer
inserting = record empty_writer { batch = reading 1 ∷ []; ticker = some (row (reading 1) ∷ []) }

calm-Calm : Calm 10 calm empty_writer
unfolding move consume tick
calm-Calm = ((refl, refl), ((refl, refl), (refl, ((refl, refl), ((refl, refl), tt)))))

run-Calm_example :
    (run 10 calm empty_writer).table ++ map row (run 10 calm empty_writer).batch
    ≡ map row (received 10 calm empty_writer)
run-Calm_example = run-Calm 10 calm calm-Calm

-- One reading is in the batch when the odd message comes.
abbrev waiting : Writer
waiting = record empty_writer { batch = reading 1 ∷ [] }

no_dict : dict_of pairs (Value.int (pos 7)) ≡ err type_error
unfolding dict_of
no_dict = refl

serve-delivers_example :
    let s : Service = record { phase = working; writer = waiting } in
    (heard pairs 10 odd_message s ≡ [])
    × (serve pairs 10 odd_message s
        ≡ serve pairs 10 (delivers (Value.int (pos 7)) ∷ moves (consumer_ends true) ∷ []) s)
serve-delivers_example =
    serve-delivers pairs 10 (Value.int (pos 7)) type_error
      (moves (arrives (reading 2)) ∷ moves (consumer_ends true) ∷ []) waiting refl no_dict

calm_rests :
    ((run 10 calm empty_writer).consumer ≡ none) × ((run 10 calm empty_writer).ticker ≡ none)
unfolding run move consume tick
calm_rests = (refl, refl)

serve-Calm_example :
    let s = serve pairs 10 (map moves calm ++ breaks ∷ moves (consumer_ends true) ∷ []) start in
    (s.writer.table ≡ map row (received 10 calm empty_writer)) × (s.writer.batch ≡ [])
serve-Calm_example = serve-Calm pairs 10 calm calm-Calm calm_rests.0 calm_rests.1 breaks (inl refl)
