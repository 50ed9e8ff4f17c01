-- ===== src/Schema/Enums.antt =====
-- The enumerations of prisma/schema.prisma, with the statuses of subscriptions and jobs that
-- queries list.

pub data UserStatus : Type 0 where
  active suspended : UserStatus

pub data AgentStatus : Type 0 where
  pending online offline revoked : AgentStatus

pub data AccountEnvironment : Type 0 where
  demo real contest : AccountEnvironment

pub data MarginMode : Type 0 where
  netting hedging exchange unknown : MarginMode

pub data CtraderAccountEnvironment : Type 0 where
  demo live : CtraderAccountEnvironment

pub data SubscriptionPlanCode : Type 0 where
  trial basic pro : SubscriptionPlanCode

pub data SubscriptionStatus : Type 0 where
  trial active past_due expired canceled suspended : SubscriptionStatus

pub data CbotInstanceStatus : Type 0 where
  online offline revoked : CbotInstanceStatus

pub data TradeDirection : Type 0 where
  buy sell : TradeDirection

pub data ExecutionMode : Type 0 where
  market straddle multi news_reversal : ExecutionMode

pub data VolumeAllocationMode : Type 0 where
  split_total full_each : VolumeAllocationMode

pub data NewsReversalState : Type 0 where
  waiting_initial_fill initial_buy_active initial_sell_active : NewsReversalState
  tp1_protected tp2_protected reversal_active completed : NewsReversalState

pub data TradeJobLegPurpose : Type 0 where
  initial reversal : TradeJobLegPurpose

pub data TradeJobLegStatus : Type 0 where
  planned submitted filled cancelled closed_tp closed_sl : TradeJobLegStatus
  closed_manual rejected : TradeJobLegStatus

pub data RiskMode : Type 0 where
  fixed_lot risk_percent : RiskMode

pub data ExecutionVenue : Type 0 where
  mt5 ctrader cbot : ExecutionVenue

pub data MockExecutionOutcome : Type 0 where
  buy_fill sell_fill timeout reject : MockExecutionOutcome

pub data StrategyPositionState : Type 0 where
  probe_open main_added closed_tp closed_sl closed_timeout : StrategyPositionState
