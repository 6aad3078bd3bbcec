-- ===== src/Cache/Tests.antt =====
-- A counter that grows until it expires.
use doxajs.Base.{ℕ, some, List, [], ◌∷◌, ◌≡◌, refl, ◌+◌}
use doxajs.Js.{number}
use doxajs.Cache.{
  Ttl, milliseconds, Slot, slot, holding, value_of, live_of, get, put, add, increment,
}
use doxajs.Cache.Operations.{
  AddRun, add-AddRun, IncrementRun, PutRun, increment-IncrementRun, get-put,
}

abbrev counted : List (Slot ℕ)
counted = slot "hits" (holding (number 4) (some 100)) ∷ []

grown_hits : (increment (λ a b. a + b) 0 50 "hits" 2 (milliseconds 30) counted).result ≡ some 6
unfolding increment doxajs.Cache.lookup
grown_hits = refl

fresh_hits : (increment (λ a b. a + b) 0 100 "hits" 2 (milliseconds 30) counted).result ≡ some 2
unfolding increment doxajs.Cache.lookup
fresh_hits = refl

add-AddRun_example :
    AddRun 100 "hits"
      (number 1)
      (milliseconds 5)
      counted
      (add 100 "hits" (number 1) (milliseconds 5) counted)
add-AddRun_example = add-AddRun 100 "hits" (number 1) (milliseconds 5) counted

increment-IncrementRun_example :
    IncrementRun
      (λ a b. a + b)
      0
      50
      "hits"
      2
      (milliseconds 30)
      counted
      (increment (λ a b. a + b) 0 50 "hits" 2 (milliseconds 30) counted)
increment-IncrementRun_example =
    increment-IncrementRun (λ a b. a + b) 0 50 "hits" 2 (milliseconds 30) counted

get-put_example :
    PutRun 50 80 "hits"
      (number 7)
      counted
      (put 50 "hits" (number 7) (milliseconds 30) counted)
      (get 80 "hits" (put 50 "hits" (number 7) (milliseconds 30) counted).entries)
      (milliseconds 30)
get-put_example = get-put 50 80 "hits" (number 7) (milliseconds 30) counted
