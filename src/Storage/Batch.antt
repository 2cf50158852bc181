-- ===== src/Storage/Batch.antt =====
-- What a batch holds for a key after one more entry.
use auticuro.Prelude.{◌≡◌, refl, Bytes, Option, none, some, [], ◌∷◌, bytes_eq, if◌then◌else◌}
use auticuro.Storage.{WriteBatch, put, delete, put_op, delete_op, after}

pub after-put :
    (wb : WriteBatch) (j value key : Bytes) (old : Option Bytes)
    → after (put j value wb) key old ≡ (if bytes_eq j key then some value else after wb key old)
unfolding after
after-put [] j value key old = refl
after-put (put_op k v ∷ wb) j value key old = after-put wb j value key _
after-put (delete_op k ∷ wb) j value key old = after-put wb j value key _

pub after-delete :
    (wb : WriteBatch) (j key : Bytes) (old : Option Bytes)
    → after (delete j wb) key old ≡ (if bytes_eq j key then none else after wb key old)
unfolding after
after-delete [] j key old = refl
after-delete (put_op k v ∷ wb) j key old = after-delete wb j key _
after-delete (delete_op k ∷ wb) j key old = after-delete wb j key _
