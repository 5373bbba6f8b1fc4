-- ===== src/Tests/OnBase.antt =====
-- Runs of src/Base.cc.
use libevent_async.Prelude.{◌≡◌, [], ◌∷◌, ◌++◌, replicate, arith}
use libevent_async.Prelude.Action.{ok, pending}
use libevent_async.Base.{ReadAnswer, bytes, WriteAnswer, count}
use libevent_async.Base
use libevent_async.Base.Reading.{Delivers, awaiting, read-Delivers, Begins, read_end}
use libevent_async.Base.Writing.{Takes, sending, write-Takes}

read-Delivers_example :
    Base.read 3 (bytes (1 ∷ []) ∷ ReadAnswer.would_block ∷ bytes (2 ∷ 3 ∷ []) ∷ [])
    ≡ (ok tt, awaiting (1 ∷ 2 ∷ 3 ∷ []) 0)
read-Delivers_example = read-Delivers 3 _ (1 ∷ 2 ∷ 3 ∷ []) (
    Delivers.partial 3 (1 ∷ []) _ (2 ∷ 3 ∷ []) (omega arith)
      (Delivers.later 2 _ (2 ∷ 3 ∷ []) (Delivers.last (2 ∷ 3 ∷ []))))

read_end_example :
    Base.read 4
      ((ReadAnswer.would_block ∷ bytes (1 ∷ []) ∷ bytes (2 ∷ []) ∷ []) ++ replicate 5 (bytes []))
    ≡ (pending, awaiting (1 ∷ 2 ∷ []) 2)
read_end_example = read_end 5 4 _ (1 ∷ 2 ∷ []) (
    Begins.wait 4 _ (1 ∷ 2 ∷ []) (
      Begins.piece 4 (1 ∷ []) _ (2 ∷ []) (omega arith)
        (Begins.piece 3 (2 ∷ []) _ [] (omega arith) (Begins.nothing 2 (omega arith)))))

write-Takes_example :
    Base.write (1 ∷ 2 ∷ 3 ∷ []) (count 1 ∷ WriteAnswer.would_block ∷ count 2 ∷ [])
    ≡ (ok tt, sending (1 ∷ 2 ∷ 3 ∷ []) [])
write-Takes_example = write-Takes (1 ∷ 2 ∷ 3 ∷ []) _ (
    Takes.partial (1 ∷ 2 ∷ 3 ∷ []) 1 _ (omega arith)
      (Takes.later (2 ∷ 3 ∷ []) _ (Takes.last (2 ∷ 3 ∷ []))))
