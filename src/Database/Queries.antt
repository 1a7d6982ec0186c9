-- ===== src/Database/Queries.antt =====
-- What the statements of YServerCore/Database.cpp say about the account that they are made from.
use yserver_core.Common.{ℕ, ◌≢◌, List, [], ◌∷◌}

-- The quote that ends a text in a statement.
abbrev pub quote : ℕ
quote = 39

abbrev pub NoQuote : List ℕ → Type 0
NoQuote [] = Unit {0}
NoQuote (b ∷ bs) = (b ≢ quote) × NoQuote bs

tail_of : List ℕ → List ℕ
tail_of [] = []
tail_of (b ∷ bs) = bs
