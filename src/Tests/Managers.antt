-- ===== src/Tests/Managers.antt =====
-- A host over a database that takes every statement.
use bitmq.Base.{
  ℕ, suc, ◌≡◌, refl, true, false, ◌&&◌, none, [], ◌∷◌, codes, bytes_eq, arith, bytes_key, ◌==◌,
  if◌then◌else◌,
}
use bitmq.Dict.{find, kept}
use bitmq.Router.{topic}
use bitmq.Sql.{Engine}
use bitmq.Exchange
use bitmq.Exchange.{Exchange, ExchangeManager}
use bitmq.Exchange.Manager.{select_exchange_after}
use bitmq.Queue
use bitmq.Queue.{MsgQueue, QueueManager}
use bitmq.Queue.Manager.{select_queue_after}
use bitmq.Binding
use bitmq.Binding.{Binding, BindingManager, lookup, recovery}
use bitmq.Binding.Tidy.{IsTidy}
use bitmq.Binding.Manager.{
  recovered, bound, unbound, Reachable-IsTidy, bind-get_binding, get_binding_after_removal,
}
use bitmq.Host
use bitmq.Host.{VirtualHost}
use bitmq.Host.Links.{IsSound}
use bitmq.Host.Steps.{Reach, Reach-IsSound, start, next, exchange_deleted, queue_deleted}
use bitmq.Tests.{plain_wire, files_with}

-- The database is the number of statements so far.
abbrev pub counting : Engine ℕ
counting sql db = record { code = 0; rows = []; db = suc db }

abbrev pub news_queue : MsgQueue
news_queue = record {
  name = codes "q";
  durable = true;
  exclusive = false;
  auto_delete = false;
  args = [];
}

abbrev queues : QueueManager ℕ
queues = record { db = 0; msg_queues = (codes "q", news_queue) ∷ [] }

abbrev other_queue : MsgQueue
other_queue = record news_queue { name = codes "r" }

select_queue_after_example : Queue.Manager.Managed counting other_queue queues (codes "q")
select_queue_after_example = select_queue_after counting other_queue queues (codes "q")

abbrev pub news_exchange : Exchange
news_exchange = record {
  name = codes "e";
  type = topic;
  durable = true;
  auto_delete = false;
  args = [];
}

abbrev exchanges : ExchangeManager ℕ
exchanges = record { db = 0; exchanges = (codes "e", news_exchange) ∷ [] }

abbrev other_exchange : Exchange
other_exchange = record news_exchange { name = codes "f" }

select_exchange_after_example :
    Exchange.Manager.Managed counting other_exchange exchanges (codes "e")
select_exchange_after_example = select_exchange_after counting other_exchange exchanges (codes "e")

abbrev news_binding : Binding
news_binding = record {
  exchange_name = codes "e";
  msgqueue_name = codes "q";
  binding_key = codes "news.#";
}

abbrev bindings : BindingManager ℕ
bindings = record { db = 0; bindings = (codes "e", (codes "q", news_binding) ∷ []) ∷ [] }

bindings-IsTidy : IsTidy bindings.bindings
unfolding find bytes_eq
bindings-IsTidy = ((refl, tt), (((λ h. cc), (refl, tt)), tt))

abbrev other_binding : Binding
other_binding = record {
  exchange_name = codes "e";
  msgqueue_name = codes "r";
  binding_key = codes "*";
}

bind-get_binding_example :
    let r = Binding.bind counting (codes "e") (codes "r") (codes "*") true bindings in
    (r.0 ≡ Binding.Manager.accepts counting other_binding true bindings)
    × (r.1.db ≡ Binding.Manager.asked counting other_binding true bindings)
    × (Binding.get_binding (codes "e") (codes "r") r.1 ≡ (
        if r.0 && (codes "e" == codes "e" && codes "r" == codes "r")
        then kept (Binding.get_binding (codes "e") (codes "r") bindings) other_binding
        else Binding.get_binding (codes "e") (codes "r") bindings))
bind-get_binding_example =
    bind-get_binding counting other_binding true bindings (codes "e") (codes "r")

get_binding_after_removal_example :
    (Binding.get_binding
        (codes "e")
        (codes "q")
        (Binding.un_bind counting (codes "e") (codes "q") bindings)
      ≡ (if codes "e" == codes "e" && codes "q" == codes "q"
          then none
          else Binding.get_binding (codes "e") (codes "q") bindings))
    × (Binding.get_binding
          (codes "e")
          (codes "q")
          (Binding.remove_exchange_bindings counting (codes "e") bindings)
        ≡ (if codes "e" == codes "e"
            then none
            else Binding.get_binding (codes "e") (codes "q") bindings))
    × (Binding.get_binding
          (codes "e")
          (codes "q")
          (Binding.remove_msg_queue_bindings counting (codes "q") bindings)
        ≡ (if codes "q" == codes "q"
            then none
            else Binding.get_binding (codes "e") (codes "q") bindings))
get_binding_after_removal_example =
    get_binding_after_removal counting (codes "e") (codes "q") bindings (codes "e") (codes "q")
      bindings-IsTidy

abbrev from_start : BindingManager ℕ
from_start = record { db = (recovery counting 0).1; bindings = (recovery counting 0).0 }

abbrev once_bound : BindingManager ℕ
once_bound = (Binding.bind counting (codes "e") (codes "q") (codes "#") false from_start).1

Reachable-IsTidy_example :
    IsTidy (Binding.un_bind counting (codes "e") (codes "q") once_bound).bindings
Reachable-IsTidy_example =
    Reachable-IsTidy counting (Binding.un_bind counting (codes "e") (codes "q") once_bound) (
      unbound (codes "e") (codes "q") once_bound
        (bound (codes "e") (codes "q") (codes "#") false from_start (recovered 0)))

abbrev pub host : VirtualHost ℕ
host = record {
  host_name = codes "h";
  exchanges = exchanges.exchanges;
  msg_queues = queues.msg_queues;
  bindings = bindings.bindings;
  messages = record { basedir = codes "d/"; queue_msgs = [] };
  db = 0;
  fs = files_with [];
}

pub host-IsSound : IsSound host
unfolding lookup find bytes_eq
host-IsSound = (bindings-IsTidy, λ e q h. ground arith)

abbrev no_exchange : VirtualHost ℕ
no_exchange = Host.delete_exchange counting plain_wire (codes "e") host

abbrev no_queue : VirtualHost ℕ
no_queue = Host.delete_queue counting plain_wire (codes "q") no_exchange

two_steps : Reach counting plain_wire host no_queue
two_steps =
    next no_exchange no_queue (next host no_exchange start (exchange_deleted (codes "e")))
      (queue_deleted (codes "q"))

Reach-IsSound_example : IsSound no_queue
Reach-IsSound_example = Reach-IsSound counting plain_wire host no_queue host-IsSound two_steps
