-- ===== src/Store/Bolt/Laws.antt =====
-- boltStore (store.go) is a Store, on a database that keeps its laws.
use wgipam.Store.Contract.{StoreLaws}
use wgipam.Store.Bolt.{Bbolt, bolt_ops}
use wgipam.Store.Bolt.Buckets.{BboltLaws, decoded_lem}
use wgipam.Store.Bolt.Saved.{bolt_view, lease_lem, save_lease_lem, delete_lease_lem}
use wgipam.Store.Bolt.Addresses.{save_subnet_lem, allocate_free, allocate_taken, free_lem}
use wgipam.Store.Bolt.Purged.{purge_lem, purge_counts}

module _ (db : Bbolt) (laws : BboltLaws db) where
  -- boltStore keeps every law of the contract of a Store, on a database whose calls do what the
  -- documentation of bbolt says, and with an encoding that reads back the leases that it writes.
  -- A lease is read back with each address in its 16-byte form, a key is a number below 2 ^ 64, and
  -- a purge frees and counts addresses in the subnets that were saved since the store was opened.
  pub bolt-StoreLaws : StoreLaws (bolt_ops db) (bolt_view db laws)
  bolt-StoreLaws = record {
    stored_lem = decoded_lem;
    lease_lem = λ key s v h. lease_lem db laws key s v h;
    save_lease_lem = λ key l s v h h'. save_lease_lem db laws key l s v h h';
    delete_lease_lem = λ key s v h. delete_lease_lem db laws key s v h;
    save_subnet_lem = λ sub s v valid. save_subnet_lem db laws sub s v valid;
    allocate_free = λ sub ip s v hs hi e i h. allocate_free db laws sub ip s v e i hi h;
    allocate_taken = λ sub ip s v e i h. allocate_taken db laws sub ip s v e i h;
    free_lem = λ sub ip s v e i. free_lem db laws sub ip s v e i;
    purge_lem = λ t s v. purge_lem db laws t s v;
    purge_counts = λ t s s' ps ls c v e e' known. purge_counts db laws t s v s' ps ls c e e' known;
  }
