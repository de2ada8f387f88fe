-- ===== src/Upload/Policy.antt =====
-- When an upload counts as good (src/proxy.cpp): the two policy functions side by side.
use libelliptics_proxy.Base.{ℕ, ◌+◌, ◌≤◌, ◌<◌, ◌≡◌, ◌↔◌, ◌⊎◌, ℤ, pos, to_size, word, true, arith}
use libelliptics_proxy.Upload.{uploads_need, upload_is_good, copies_any, copies_quorum, copies_all}

-- For each of the three named policies, where no more copies were written than wanted, a single
-- write counts as good exactly if it has the number of copies that a bulk write asks for.
pub upload_is_good-iff-uploads_need :
    (policy : ℤ) (replication_count size : ℕ)
    → (policy ≡ copies_any) ⊎ (policy ≡ copies_quorum) ⊎ (policy ≡ copies_all)
    → size ≤ replication_count
    → (upload_is_good (to_size policy) replication_count size ≡ true)
      ↔ (uploads_need (to_size policy) replication_count ≤ size)
unfolding upload_is_good uploads_need to_size
upload_is_good-iff-uploads_need policy r size h k = ground arith

-- A policy that is a number of copies, below 2 ^ 64 - 3, asks a single write for exactly that many,
-- so that more copies are as bad as fewer, and a bulk write for all copies, whatever the number.
pub numeric_policy :
    (n replication_count size : ℕ)
    → n + 3 < word
    → ((upload_is_good (to_size (pos n)) replication_count size ≡ true) ↔ (size ≡ n))
      × (uploads_need (to_size (pos n)) replication_count ≡ replication_count)
unfolding upload_is_good uploads_need to_size
numeric_policy n r size h = ground arith
