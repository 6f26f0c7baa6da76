-- ===== src/Server/Json.antt =====
-- The JSON values that the daemon carries (`serde_json::Value`, of which the source uses the
-- constructors), and `estimate` of crates/lug-server/src/ring.rs. `N` stands for the numbers. The
-- elements of an array and the fields of an object are lists of their own.
use lug.Prelude.{ℕ, ◌+◌, Bool, true, false, List, length}

mutual
  pub data Json (N : Type 0) : Type 0 where
    null : Json N
    boolean : Bool → Json N
    number : N → Json N
    string : List ℕ → Json N
    array : Items N → Json N
    object : Fields N → Json N

  pub data Items (N : Type 0) : Type 0 where
    no_items : Items N
    item : Json N → Items N → Items N

  pub data Fields (N : Type 0) : Type 0 where
    no_fields : Fields N
    field : List ℕ → Json N → Fields N → Fields N

abbrev mutual
  pub estimate : {N : Type 0} → Json N → ℕ
  estimate null = 4
  estimate (boolean true) = 4
  estimate (boolean false) = 5
  estimate (number n) = 8
  estimate (string s) = length s + 2
  estimate (array items) = 2 + estimate_items items
  estimate (object fields) = 2 + estimate_fields fields

  pub estimate_items : {N : Type 0} → Items N → ℕ
  estimate_items no_items = 0
  estimate_items (item v items) = (estimate v + 1) + estimate_items items

  pub estimate_fields : {N : Type 0} → Fields N → ℕ
  estimate_fields no_fields = 0
  estimate_fields (field k v fields) = (length k + 4 + estimate v) + estimate_fields fields
