-- ===== src/Tests/Persist.antt =====
-- A chunk of four bytes at concrete inputs.
use lambda_objectstore.Base.{◌≤◌, ◌≡◌, refl, true, none, some, [], ◌∷◌, arith, take, length}
use lambda_objectstore.Base.Int.{pos}
use lambda_objectstore.Persist
use lambda_objectstore.Persist.Intercept
use lambda_objectstore.Persist.Intercept.{
  Answer, eof, unexpected_eof, done_reading, copy, keep, read_full,
}
use lambda_objectstore.Persist.Chunk.{
  PersistChunk, new_persist_chunk, bytes_stored, intercept, done_refs, close_once, close,
  notify_data,
}
use lambda_objectstore.Persist.Reader
use lambda_objectstore.Persist.Reader.{new_reader}
use lambda_objectstore.Persist.References.{Held, IsReferenced, ClosesLast, leaving, use_chunk}
use lambda_objectstore.Persist.References.Last.{use_chunk-ClosesLast}
use lambda_objectstore.Persist.Delivery.{
  Flow, Steps, IsFlow, delivered, asked, no_step, then_step, deliver, ask, reads_in_order,
}

abbrev stored_chunk : PersistChunk
stored_chunk = record (new_persist_chunk 4) {
  refs = pos 1;
  interceptor = some (record {
    len = 4;
    buf = 0 ∷ 0 ∷ 0 ∷ 0 ∷ [];
    r = 0;
    last_error = none;
    done = Persist.new_closer;
  });
}

abbrev begun : Flow
begun = record { chunk = stored_chunk; reader = new_reader; out = []; given = [] }

abbrev three : Answer
three = record { bytes = 7 ∷ 8 ∷ 9 ∷ []; error = none }

begun-IsFlow : IsFlow begun
unfolding new_persist_chunk
begun-IsFlow = ((_, refl, (refl, omega arith, refl), refl), refl, omega arith)

-- Three bytes come, of which two are read.
two_read-Steps : Steps begun (ask 2 none (deliver three begun))
unfolding new_persist_chunk bytes_stored
two_read-Steps =
    then_step _ _ _ (then_step _ _ _ (no_step begun) (delivered three begun (omega arith)))
      (asked 2 none (deliver three begun))

test_read : (ask 2 none (deliver three begun)).out ≡ 7 ∷ 8 ∷ []
unfolding new_persist_chunk ask deliver intercept Reader.read Reader.read_available bytes_stored
    Intercept.read copy keep notify_data
test_read = refl

-- A source that ends too early.
test_read_full :
    Intercept.read_all (three ∷ record { bytes = []; error = some eof } ∷ []) (record {
      len = 4;
      buf = 0 ∷ 0 ∷ 0 ∷ 0 ∷ [];
      r = 0;
      last_error = none;
      done = Persist.new_closer;
    })
    ≡ done_reading
        (record {
          len = 4;
          buf = 7 ∷ 8 ∷ 9 ∷ 0 ∷ [];
          r = 3;
          last_error = some eof;
          done = record { status = true; done = none };
        })
        (some unexpected_eof)
unfolding Intercept.read_all read_full Intercept.read keep copy Intercept.unhold Persist.close
test_read_full = refl

reads_in_order_example :
    ((ask 2 none (deliver three begun)).out
      ≡ take (ask 2 none (deliver three begun)).reader.r (ask 2 none (deliver three begun)).given)
    × ((ask 2 none (deliver three begun)).chunk.size ≤ (ask 2 none (deliver three begun)).reader.r
        → ((ask 2 none (deliver three begun)).out ≡ (ask 2 none (deliver three begun)).given)
          × (length (ask 2 none (deliver three begun)).given
              ≡ (ask 2 none (deliver three begun)).chunk.size))
reads_in_order_example = reads_in_order two_read-Steps begun-IsFlow

abbrev one_user : Held
one_user = record { chunk = stored_chunk; users = 1 }

one_user-IsReferenced : IsReferenced one_user
unfolding new_persist_chunk
one_user-IsReferenced = (refl, refl)

test_leave : (use_chunk leaving one_user).chunk.closed ≡ true
unfolding use_chunk new_persist_chunk done_refs close_once close
test_leave = refl

use_chunk-ClosesLast_example :
    IsReferenced (use_chunk leaving one_user) × ClosesLast one_user (use_chunk leaving one_user)
use_chunk-ClosesLast_example = use_chunk-ClosesLast leaving one_user one_user-IsReferenced
